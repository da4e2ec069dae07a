-- ===== src/Store/Contracts.antt =====
-- Contract fingerprints and session read sets of internal/store/store.go: what is new or changed is
-- recorded and returned for publishing.
pub mod Observations
pub mod Fingerprints
pub mod ReadSets
use overgent.Prelude.{
  ℕ, String, Bool, false, ◌&&◌, ◌||◌, Option, none, some, List, [], ◌∷◌, str_eq, ltb, if◌then◌else◌,
  Result, ok, err, str_le,
}
use overgent.Prelude.Tables.{find, update, any, upsert}
use overgent.Prelude.Tables.Order.{sort_by}
use overgent.Store.{Db, Fingerprint, ReadSetEntry, ReadRow, Error, invalid, unix_milli}

-- One entry of the observed map: a path and its hash.
pub record Observed : Type 0 where
  pub path : String
  pub hash : String

abbrev pub is_path : String → String → Fingerprint → Bool
is_path workspace path f = str_eq f.workspace_id workspace && str_eq f.path path

abbrev pub stored_hash : String → String → List Fingerprint → Option String
stored_hash workspace path rows = elim (find (is_path workspace path) rows) [
  | none ↦ none
  | some f ↦ some f.hash
]

abbrev pub holds_hash : Option String → String → Bool
holds_hash none hash = false
holds_hash (some stored) hash = str_eq stored hash

abbrev pub put_fingerprint : ℕ → String → Observed → List Fingerprint → List Fingerprint
put_fingerprint now workspace o rows =
    upsert (is_path workspace o.path)
      (λ (f : Fingerprint). record f { hash = o.hash; observed_at = unix_milli now })
      (record {
        workspace_id = workspace;
        path = o.path;
        hash = o.hash;
        observed_at = unix_milli now;
      })
      rows

abbrev pub by_path : Observed → Observed → Bool
by_path a b = str_le a.path b.path

-- The loop of `ChangedFingerprints` over the sorted paths.
unfoldable pub fingerprint_loop :
    ℕ → String → List Observed → List Fingerprint → List Fingerprint × List String
unfolding find upsert any update
fingerprint_loop now workspace [] rows = (rows, [])
fingerprint_loop now workspace (o ∷ os) rows =
    let same = fingerprint_loop now workspace os rows in
    let moved = fingerprint_loop now workspace os (put_fingerprint now workspace o rows) in
    if holds_hash (stored_hash workspace o.path rows) o.hash
    then same
    else (moved.0, o.path ∷ moved.1)

-- `observed` is the map in the order of its iteration, which is any.
unfoldable pub changed_fingerprints :
    ℕ → String → List Observed → Db → Result Error (Db × List String)
unfolding fingerprint_loop sort_by
changed_fingerprints now workspace observed db =
    if str_eq workspace ""
    then err invalid
    else let (rows, changed) =
        fingerprint_loop now workspace (sort_by by_path observed) db.fingerprints in
      ok (record db { fingerprints = rows }, changed)

unfoldable pub fingerprint_hash : String → String → Db → Option String
unfolding find
fingerprint_hash workspace path db = stored_hash workspace path db.fingerprints

unfoldable pub read_fidelity_rank : String → ℕ
read_fidelity_rank fidelity =
    if str_eq fidelity "observed"
    then 3
    else if str_eq fidelity "vendor_inferred"
    then 2
    else if str_eq fidelity "self_declared"
    then 1
    else 0

abbrev pub is_read : String → String → String → ReadRow → Bool
is_read workspace session path r =
    str_eq r.workspace_id workspace && str_eq r.session session && str_eq r.entry.path path

abbrev pub stored_read : String → String → String → List ReadRow → Option ReadSetEntry
stored_read workspace session path rows = elim (find (is_read workspace session path) rows) [
  | none ↦ none
  | some r ↦ some r.entry
]

-- The strongest evidence for a path is kept.
unfoldable pub merge_fidelity : Option ReadSetEntry → String → String
unfolding read_fidelity_rank
merge_fidelity none fidelity = fidelity
merge_fidelity (some stored) fidelity =
    if ltb (read_fidelity_rank fidelity) (read_fidelity_rank stored.fidelity)
    then stored.fidelity
    else fidelity

abbrev pub is_unchanged : Option ReadSetEntry → ReadSetEntry → Bool
is_unchanged none entry = false
is_unchanged (some stored) entry =
    str_eq stored.hash entry.hash && str_eq stored.fidelity entry.fidelity

abbrev pub with_fidelity : List ReadRow → String → String → ReadSetEntry → ReadSetEntry
with_fidelity rows workspace session entry = record entry {
  fidelity = merge_fidelity (stored_read workspace session entry.path rows) entry.fidelity;
}

abbrev pub put_read : String → String → ReadSetEntry → List ReadRow → List ReadRow
put_read workspace session entry rows =
    upsert (is_read workspace session entry.path)
      (λ (r : ReadRow). record r { entry = record entry { path = r.entry.path } })
      (record { workspace_id = workspace; session = session; entry = entry }) rows

unfoldable pub has_path : String → List String → Bool
has_path path [] = false
has_path path (seen ∷ rest) = str_eq seen path || has_path path rest

abbrev pub is_skipped : ReadSetEntry → List String → Bool
is_skipped entry seen = str_eq entry.path "" || str_eq entry.hash "" || has_path entry.path seen

-- The loop of `ChangedReadSet`; `seen` is the set of paths already handled.
unfoldable pub read_loop :
    String
    → String
    → List String
    → List ReadSetEntry
    → List ReadRow
    → List ReadRow × List ReadSetEntry
unfolding find upsert any update merge_fidelity has_path
read_loop workspace session seen [] rows = (rows, [])
read_loop workspace session seen (entry ∷ entries) rows =
    let kept = with_fidelity rows workspace session entry in
    let skipped = read_loop workspace session seen entries rows in
    let rest =
      read_loop workspace session (entry.path ∷ seen) entries
        (put_read workspace session kept rows) in
    if is_skipped entry seen
    then skipped
    else if is_unchanged (stored_read workspace session entry.path rows) kept
    then rest
    else (rest.0, kept ∷ rest.1)

unfoldable pub changed_read_set :
    String → String → List ReadSetEntry → Db → Result Error (Db × List ReadSetEntry)
unfolding read_loop
changed_read_set workspace session entries db =
    if str_eq workspace "" || str_eq session ""
    then err invalid
    else let (rows, changed) = read_loop workspace session [] entries db.read_sets in
      ok (record db { read_sets = rows }, changed)
