-- ===== src/Contract/Archive/Outcome.antt =====
-- What archiving a will requires and what it leaves.
use sorowill_contracts.Prelude.{
  ℕ, ◌≡◌, ◌⊎◌, ◌∙◌, refl, ap, false, Option, none, some, List, [], ◌∷◌, update, arith, contains,
}
use sorowill_contracts.Errors.{ok}
use sorowill_contracts.Types.{Address, Beneficiary, Will, released, cancelled, triggered, is_status}
use sorowill_contracts.Env.{Env}
use sorowill_contracts.Storage.Archive
use sorowill_contracts.Storage.Archive.{moved_entry, unindex_if}
use sorowill_contracts.Storage.Wills.{load_will}
use sorowill_contracts.Storage.Indexes.{ids_or_empty, remove_owner_index, remove_beneficiary_index}
use sorowill_contracts.Storage.Indexes.Members.{contains-remove_index}
use sorowill_contracts.Distribute.Payout.{remove_beneficiary_indexes}
use sorowill_contracts.Contract.Archive.{archive_will}

-- The parts of the environment that do not hold the index by beneficiary.
remove_beneficiary_indexes-same :
    {B : Type 0} (view : Env → B)
    → ((env : Env) (f : Address → Option (List ℕ))
        → view (record env { beneficiary_wills = f }) ≡ view env)
    → (bs : List Beneficiary) (id : ℕ) (env : Env)
    → view (remove_beneficiary_indexes bs id env) ≡ view env
unfolding remove_beneficiary_indexes remove_beneficiary_index
remove_beneficiary_indexes-same view same [] id env = refl
remove_beneficiary_indexes-same view same (b ∷ bs) id env =
    remove_beneficiary_indexes-same view same bs id (remove_beneficiary_index b.address id env)
    ∙ same env _

-- The parts that an archived will leaves in the storage.
abbrev pub IsArchived : Will → Env → Env → Type 0
IsArchived w env env' =
    (env'.wills ≡ update env.wills w.id none)
    × (env'.archived_will ≡ update env.archived_will w.id (some w))
    × (contains (ids_or_empty (env'.owner_wills w.owner)) w.id ≡ false)
    × (env'.transfers ≡ env.transfers)

owner_without :
    (w : Will) (env : Env)
    → contains (ids_or_empty ((remove_owner_index w.owner w.id env).owner_wills w.owner)) w.id
      ≡ false
unfolding remove_owner_index
owner_without w env = ground (arith, contains-remove_index (env.owner_wills w.owner) w.id w.id)

archive_will-IsArchived :
    (w : Will) (env : Env)
    → is_status w.status triggered ≡ false
    → IsArchived w env (Archive.archive_will w env)
unfolding Archive.archive_will remove_owner_index
archive_will-IsArchived w env e =
    let at : Env = remove_owner_index w.owner w.id (moved_entry w env) in
    rw e (
      remove_beneficiary_indexes-same (λ env. env.wills) (λ env f. refl) w.beneficiaries w.id at,
      remove_beneficiary_indexes-same (λ env. env.archived_will) (λ env f. refl) w.beneficiaries
          w.id at,
      ap (λ (f : Address → Option (List ℕ)). contains (ids_or_empty (f w.owner)) w.id)
            (remove_beneficiary_indexes-same (λ env. env.owner_wills) (λ env f. refl)
              w.beneficiaries w.id at)
          ∙ owner_without w (moved_entry w env),
      remove_beneficiary_indexes-same (λ env. env.transfers) (λ env f. refl) w.beneficiaries w.id
          at,
    )

-- Archiving succeeds only on a released or cancelled will. It takes the will out of the active
-- storage and out of its owner's index, keeps a copy under the archive's key, moves no token, and
-- writes no other will.
pub archive_will-outcome :
    (id : ℕ) (env env' : Env) (w : Will)
    → load_will id env ≡ ok w
    → archive_will id env ≡ ok (tt, env')
    → ((w.status ≡ released) ⊎ (w.status ≡ cancelled)) × IsArchived w env env'
unfolding archive_will
archive_will-outcome id env env' w e h =
    let settled : (w.status ≡ released) ⊎ (w.status ≡ cancelled) = ground arith in
    let (wills, archived, owned, moved) = archive_will-IsArchived w env (ground arith) in
    let stored : env'.wills ≡ (Archive.archive_will w env).wills = ground arith in
    let copied : env'.archived_will ≡ (Archive.archive_will w env).archived_will = ground arith in
    let listed : env'.owner_wills ≡ (Archive.archive_will w env).owner_wills = ground arith in
    let sent : env'.transfers ≡ (Archive.archive_will w env).transfers = ground arith in
    (settled, (stored ∙ wills, copied ∙ archived, rw listed owned, sent ∙ moved))
