-- ===== src/Contract/Renounce/Shares.antt =====
-- How the share of a beneficiary who renounces goes to the others.
use native.Mathlib.Nat.{
  div-mul-le_self, le_of_mul-le-mul_right, le_trans, zero-lt-suc, mul-le-mul_left, zero-add,
}
use sorowill_contracts.Prelude.{
  ℕ, suc, ◌+◌, ◌-◌, ◌*◌, ◌/◌, ◌≤◌, ◌≡◌, refl, ap, Bool, true, false, List, [], ◌∷◌, ◌==◌, ltb, min,
  arith,
}
use sorowill_contracts.Prelude.Words.{u32_max, saturating_add_u32}
use sorowill_contracts.Errors.{Result, ok}
use sorowill_contracts.Types.{Address, Allocation, percentage, fixed_amount, Beneficiary}
use sorowill_contracts.Distribute.Plan.{percentage_count}
use sorowill_contracts.Validation.{total_checked_add}
use sorowill_contracts.Validation.Allocations.{total_bps}
use sorowill_contracts.Contract.Renormalize.{percentage_total, as_u32}
use sorowill_contracts.Contract.Renormalize.Total.{addresses, percentage_total-eq}
use sorowill_contracts.Contract.Renounce.{enlarged_bps, redistribute, share_out}

-- What an entry before the last gets.
abbrev enlarged : ℕ → ℕ → ℕ → ℕ
enlarged renounced remaining bp = bp + renounced * bp / remaining

portion_small : (renounced bp n : ℕ) → bp ≤ suc n → renounced * bp / suc n ≤ renounced
portion_small renounced bp n h =
    le_of_mul-le-mul_right
      (le_trans (div-mul-le_self (renounced * bp) (suc n)) (mul-le-mul_left renounced h))
      (zero-lt-suc n)

enlarged-eq :
    (renounced n target bp running : ℕ)
    → renounced ≤ 10000
    → bp ≤ suc n
    → suc n ≤ 10000
    → enlarged_bps renounced (suc n) target bp false running ≡ ok (enlarged renounced (suc n) bp)
enlarged-eq renounced n target bp running small le fits =
    let p = portion_small renounced bp n le in
    let same : as_u32 (renounced * bp / suc n) ≡ renounced * bp / suc n = omega arith in
    rw same (ap ok (omega arith))

-- The running total stays in proportion to the entries that are done.
abbrev IsInProportion : ℕ → ℕ → ℕ → ℕ → Type 0
IsInProportion total target running rest =
    (running ≤ target) × (running * total + rest * target ≤ total * target)

add_enlarged :
    (running bp rest portion total renounced : ℕ)
    → portion * total ≤ renounced * bp
    → running * total + (bp + rest) * (total + renounced) ≤ total * (total + renounced)
    → (running + (bp + portion)) * total + rest * (total + renounced) ≤ total * (total + renounced)
add_enlarged running bp rest portion total renounced k p =
    let e : (running + (bp + portion)) * total ≡ running * total + bp * total + portion * total =
      grind arith in
    let f : (bp + rest) * (total + renounced)
        ≡ bp * total + renounced * bp + rest * (total + renounced) =
      grind arith in
    omega arith

drop_rest : (a total target rest : ℕ) → a * total + rest ≤ total * target → 1 ≤ total → a ≤ target
drop_rest a total target rest h positive =
    let e : total * target ≡ target * total = grind arith in
    let fits : a * total ≤ target * total = omega arith in le_of_mul-le-mul_right fits positive

stays-IsInProportion :
    (renounced n running bp rest : ℕ)
    → IsInProportion (suc n) (suc n + renounced) running (bp + rest)
    → IsInProportion (suc n) (suc n + renounced) (running + enlarged renounced (suc n) bp) rest
stays-IsInProportion renounced n running bp rest (small, p) =
    let k =
      add_enlarged running bp rest (renounced * bp / suc n) (suc n) renounced
        (div-mul-le_self (renounced * bp) (suc n)) p in
    (
      drop_rest (running + enlarged renounced (suc n) bp) (suc n) (suc n + renounced)
          (rest * (suc n + renounced)) k (omega arith),
      k,
    )

nothing_at :
    (renounced total target count : ℕ) (address : Address) (a : Allocation) (bs : List Beneficiary)
    (seen running : ℕ)
    → (percentage_count bs ≡ 0
        → (redistribute renounced total target count bs seen running ≡ ok (running, bs))
          × (total_bps bs ≡ 0))
    → percentage_count (record { address = address; allocation = a } ∷ bs) ≡ 0
    → (redistribute renounced total target count
          (record { address = address; allocation = a } ∷ bs)
          seen
          running
        ≡ ok (running, record { address = address; allocation = a } ∷ bs))
      × (total_bps (record { address = address; allocation = a } ∷ bs) ≡ 0)
unfolding redistribute percentage_count total_bps
nothing_at renounced total target count address (percentage bp) bs seen running ih e = ground arith
nothing_at renounced total target count address (fixed_amount x) bs seen running ih e =
    let (done, nothing) = ih e in (rw done refl, omega arith)

no_percentages :
    (renounced total target count : ℕ) (bs : List Beneficiary) (seen running : ℕ)
    → percentage_count bs ≡ 0
    → (redistribute renounced total target count bs seen running ≡ ok (running, bs))
      × (total_bps bs ≡ 0)
unfolding redistribute total_bps
no_percentages renounced total target count [] seen running e = (refl, refl)
no_percentages renounced total target count (b ∷ bs) seen running e =
    nothing_at renounced total target count b.address b.allocation bs seen running
      (no_percentages renounced total target count bs seen running) e

redistribute_entry :
    (renounced total target count : ℕ) (address : Address) (bp : ℕ) (bs bs' : List Beneficiary)
    (seen running new_bp last : ℕ) (t : Bool)
    → ((seen + 1) == count) ≡ t
    → enlarged_bps renounced total target bp t running ≡ ok new_bp
    → running + new_bp ≤ u32_max
    → redistribute renounced total target count bs (seen + 1) (running + new_bp) ≡ ok (last, bs')
    → redistribute renounced total target count
        (record { address = address; allocation = percentage bp } ∷ bs)
        seen
        running
      ≡ ok (last, record { address = address; allocation = percentage new_bp } ∷ bs')
unfolding redistribute total_checked_add
redistribute_entry renounced total target count address bp bs bs' seen running new_bp last t et eq
      small done =
    let fits : total_checked_add running new_bp ≡ ok (running + new_bp) = ground arith in
    rw (et, eq, fits, done) refl

-- What the loop makes of the entries that are left, from `running` on.
abbrev Completes : ℕ → ℕ → Result (ℕ × List Beneficiary) → List Beneficiary → Type 0
Completes target running result bs =
    (bs' : List Beneficiary) × (result ≡ ok (target, bs'))
    × (addresses bs' ≡ addresses bs)
    × (running + total_bps bs' ≡ target)

abbrev CompletesFrom : ℕ → ℕ → ℕ → List Beneficiary → Type 0
CompletesFrom renounced n count bs =
    (seen running : ℕ)
    → IsInProportion (suc n) (suc n + renounced) running (total_bps bs)
    → total_bps bs ≤ suc n
    → seen + percentage_count bs ≡ count
    → 1 ≤ percentage_count bs
    → Completes (suc n + renounced) running
        (redistribute renounced (suc n) (suc n + renounced) count bs seen running) bs

Completes-at :
    (renounced n count : ℕ) (address : Address) (a : Allocation) (bs : List Beneficiary)
    (seen running : ℕ) (t : Bool)
    → suc n + renounced ≤ 10000
    → ((seen + 1) == count) ≡ t
    → CompletesFrom renounced n count bs
    → IsInProportion
        (suc n)
        (suc n + renounced)
        running
        (total_bps (record { address = address; allocation = a } ∷ bs))
    → total_bps (record { address = address; allocation = a } ∷ bs) ≤ suc n
    → seen + percentage_count (record { address = address; allocation = a } ∷ bs) ≡ count
    → 1 ≤ percentage_count (record { address = address; allocation = a } ∷ bs)
    → Completes
        (suc n + renounced)
        running
        (redistribute renounced
          (suc n)
          (suc n + renounced)
          count
          (record { address = address; allocation = a } ∷ bs)
          seen
          running)
        (record { address = address; allocation = a } ∷ bs)
unfolding redistribute percentage_count total_bps
Completes-at renounced n count address (fixed_amount x) bs seen running t fits et ih p h e k =
    let (bs', done, same, sum) = ih seen running (rw zero-add at p) (omega arith) e k in
    (
      record { address = address; allocation = fixed_amount x } ∷ bs',
      rw done refl,
      rw same refl,
      omega arith,
    )
Completes-at renounced n count address (percentage bp) bs seen running true fits et ih (small, p) h
      e k =
    let target = suc n + renounced in
    let full : running + (target - running) ≡ target = omega arith in
    let (nothing, none_left) =
      no_percentages renounced (suc n) target count bs (seen + 1) target (ground arith) in
    (
      record { address = address; allocation = percentage (target - running) } ∷ bs,
      redistribute_entry renounced (suc n) target count address bp bs bs seen running
          (target - running) target true et (ground arith) (omega arith) (rw full nothing),
      refl,
      omega (arith, none_left),
    )
Completes-at renounced n count address (percentage bp) bs seen running false fits et ih p h e k =
    let new_bp = enlarged renounced (suc n) bp in
    let (small, p') = stays-IsInProportion renounced n running bp (total_bps bs) p in
    let (bs', done, same, sum) =
      ih (seen + 1) (running + new_bp) (small, p') (omega arith) (omega arith) (ground arith) in
    (
      record { address = address; allocation = percentage new_bp } ∷ bs',
      redistribute_entry renounced (suc n) (suc n + renounced) count address bp bs bs' seen running
          new_bp (suc n + renounced) false et
          (enlarged-eq renounced n (suc n + renounced) bp running (omega arith) (omega arith)
            (omega arith))
          (omega arith) done,
      rw same refl,
      omega arith,
    )

completes_from :
    (renounced n count : ℕ) (bs : List Beneficiary)
    → suc n + renounced ≤ 10000
    → CompletesFrom renounced n count bs
unfolding percentage_count
completes_from renounced n count [] fits seen running p h e k = ground arith
completes_from renounced n count (b ∷ bs) fits seen running p h e k =
    Completes-at renounced n count b.address b.allocation bs seen running ((seen + 1) == count) fits
      refl (completes_from renounced n count bs fits) p h e k

counted : (bs : List Beneficiary) → 1 ≤ total_bps bs → 1 ≤ percentage_count bs
unfolding total_bps percentage_count
counted [] h = h
counted (b ∷ bs) h = ground (arith, counted bs)

share_out-eq :
    (renounced n : ℕ) (bs result : List Beneficiary)
    → 1 ≤ renounced
    → percentage_total bs 0 ≡ suc n
    → suc n + renounced ≤ 10000
    → redistribute renounced (suc n) (suc n + renounced) (percentage_count bs) bs 0 0
      ≡ ok (suc n + renounced, result)
    → share_out renounced bs ≡ ok result
unfolding share_out saturating_add_u32
share_out-eq renounced n bs result positive remaining fits done =
    let target : min (min (suc n + renounced) u32_max) 10000 ≡ suc n + renounced = omega arith in
    let some_given : ltb 0 renounced ≡ true = ground arith in
    let some_left : ltb 0 (suc n) ≡ true = ground arith in
    let bound : ltb 10000 (suc n + renounced) ≡ false = ground arith in
    rw (remaining, some_given, some_left, target, done, bound) refl

shared_out :
    (renounced n : ℕ) (bs : List Beneficiary)
    → 1 ≤ renounced
    → total_bps bs ≡ suc n
    → suc n + renounced ≤ 10000
    → (result : List Beneficiary) × (share_out renounced bs ≡ ok result)
      × (addresses result ≡ addresses bs)
      × (total_bps result ≡ total_bps bs + renounced)
shared_out renounced n bs positive total fits =
    let counted_total = percentage_total-eq bs 0 (omega arith) in
    let remaining : percentage_total bs 0 ≡ suc n = omega arith in
    let (result, done, same, sum) =
      completes_from renounced n (percentage_count bs) bs fits 0 0
        (omega arith, rw total (omega arith)) (omega arith) (omega arith)
        (counted bs (omega arith)) in
    (result, share_out-eq renounced n bs result positive remaining fits done, same, omega arith)

-- Where somebody with a percentage renounces and the others hold some, at most 10,000 basis points in
-- all, the renounced basis points go to the others in full: nobody is dropped, the order is kept, and
-- the percentages come to as much as they did with the one who renounces.
pub share_out-conserves :
    (renounced : ℕ) (bs : List Beneficiary)
    → 1 ≤ renounced
    → 1 ≤ total_bps bs
    → total_bps bs + renounced ≤ 10000
    → (result : List Beneficiary) × (share_out renounced bs ≡ ok result)
      × (addresses result ≡ addresses bs)
      × (total_bps result ≡ total_bps bs + renounced)
share_out-conserves renounced bs positive some_left fits =
    let n : total_bps bs ≡ suc (total_bps bs - 1) = omega arith in
    shared_out renounced (total_bps bs - 1) bs positive n (omega arith)
