-- ===== src/Store/Contracts/Fingerprints.antt =====
-- `ChangedFingerprints` publishes drift and nothing else.
use mathlib.Core.Path.{subst}
use overgent.Prelude.Tables.Rows.{keyed}
use overgent.Store.Contracts.{
  fingerprint_loop, changed_fingerprints, fingerprint_hash, stored_hash, holds_hash,
  put_fingerprint, is_path,
}
use overgent.Store.{Db}
use overgent.Prelude.{
  ℕ, String, ◌≡◌, refl, ap, ◌∙◌, inl, inr, true, false, Option, none, some, List, [], ◌∷◌, arith,
  str_eq, eq_iff, eq_refl, if◌then◌else◌, str_eq→eq, Bool-cases, All, ok, str_le,
}
use overgent.Prelude.Tables.Rows.{distinct}
use overgent.Store.Contracts.Observations.{
  distinct-sorted, hash-sorted, drifted-IsSorted, observed_hash, unique_paths, drifted, has_drifted,
}
use overgent.Prelude.Tables.Order.{sort_by, IsSorted}
use overgent.Prelude.Tables.{select, any, find-upsert_self, find-upsert_ne}
use overgent.Store.{Db, Fingerprint, unix_milli}
use overgent.Store.Contracts.{
  Observed, by_path, fingerprint_loop, changed_fingerprints, fingerprint_hash, stored_hash,
  holds_hash, put_fingerprint, is_path,
}

stored-put :
    (now : ℕ) (workspace path : String) (o : Observed) (rows : List Fingerprint)
    → stored_hash workspace path (put_fingerprint now workspace o rows)
      ≡ (if str_eq o.path path then some o.hash else stored_hash workspace path rows)
stored-put now workspace path o rows = elim (Bool-cases (str_eq o.path path)) [
  | inl e ↦ ground (
    arith,
    str_eq→eq o.path path e,
    find-upsert_self (is_path workspace o.path) set new rows (λ f m. m)
        (ground (arith, eq_refl workspace, eq_refl o.path)),
  )
  | inr e ↦ ground (
    arith,
    find-upsert_ne (is_path workspace o.path) (is_path workspace path) set new rows
        (λ f m. ground (arith, eq_iff f.path o.path, eq_iff f.path path, eq_iff o.path path))
        (λ f. refl) (ground arith),
  )
]
  where
    set : Fingerprint → Fingerprint
    set f = record f { hash = o.hash; observed_at = unix_milli now }

    new : Fingerprint
    new = record {
      workspace_id = workspace;
      path = o.path;
      hash = o.hash;
      observed_at = unix_milli now;
    }

holds_hash_lem :
    (stored : Option String) (hash : String) → holds_hash stored hash ≡ true → stored ≡ some hash
holds_hash_lem none hash h = cc
holds_hash_lem (some s) hash h = ground (arith, eq_iff s hash)

not_observed :
    (path : String) (os : List Observed)
    → any (keyed (λ (o : Observed). o.path) path) os ≡ false
    → observed_hash path os ≡ none
unfolding any
not_observed path [] h = refl
not_observed path (o ∷ os) h = ground (arith, not_observed path os)

abbrev pub settled : Option String → Option String → Option String
settled none old = old
settled (some hash) old = some hash

-- What is stored for each path after the loop.
stored-loop :
    (now : ℕ) (workspace path : String) (os : List Observed) (rows : List Fingerprint)
    → unique_paths os ≡ true
    → stored_hash workspace path (fingerprint_loop now workspace os rows).0
      ≡ settled (observed_hash path os) (stored_hash workspace path rows)
unfolding fingerprint_loop distinct
stored-loop now workspace path [] rows u = refl
stored-loop now workspace path (o ∷ os) rows u =
    elim (Bool-cases (holds_hash (stored_hash workspace o.path rows) o.hash)) [
      | inl same ↦ rw same (elim (Bool-cases (str_eq o.path path)) [
        | inl e ↦
            let at : o.path ≡ path = str_eq→eq o.path path e in
            rw e (
              stored-loop now workspace path os rows (ground arith)
              ∙ ground (
                arith,
                not_observed path os (rw (← at) (ground arith)),
                rw at at (holds_hash_lem (stored_hash workspace o.path rows) o.hash same),
              ))
        | inr e ↦ rw e (stored-loop now workspace path os rows (ground arith))
      ])
      | inr moved ↦ rw moved (elim (Bool-cases (str_eq o.path path)) [
        | inl e ↦
            let at : o.path ≡ path = str_eq→eq o.path path e in
            rw e (
              stored-loop now workspace path os (put_fingerprint now workspace o rows)
                (ground arith)
              ∙ ground (
                arith,
                not_observed path os (rw (← at) (ground arith)),
                stored-put now workspace path o rows,
                e,
              ))
        | inr e ↦ rw e (
            stored-loop now workspace path os (put_fingerprint now workspace o rows) (ground arith)
            ∙ ground (arith, stored-put now workspace path o rows, e))
      ])
    ]

abbrev IsStored : String → List Fingerprint → Observed → Type 0
IsStored workspace rows o = stored_hash workspace o.path rows ≡ some o.hash

All-IsStored :
    (now : ℕ) (workspace : String) (os : List Observed) (rows : List Fingerprint)
    → unique_paths os ≡ true
    → All (IsStored workspace (fingerprint_loop now workspace os rows).0) os
unfolding fingerprint_loop distinct
All-IsStored now workspace [] rows u = tt
All-IsStored now workspace (o ∷ os) rows u =
    elim (Bool-cases (holds_hash (stored_hash workspace o.path rows) o.hash)) [
      | inl same ↦
          let step : (fingerprint_loop now workspace os rows).0
              ≡ (fingerprint_loop now workspace (o ∷ os) rows).0 =
            rw same refl in
          subst (λ r. All (IsStored workspace r) (o ∷ os)) step
            (
              stored-loop now workspace o.path os rows (ground arith)
                  ∙ ground (
                    arith,
                    not_observed o.path os (ground arith),
                    holds_hash_lem (stored_hash workspace o.path rows) o.hash same,
                  ),
              All-IsStored now workspace os rows (ground arith),
            )
      | inr moved ↦
          let step : (fingerprint_loop now workspace os (put_fingerprint now workspace o rows)).0
              ≡ (fingerprint_loop now workspace (o ∷ os) rows).0 =
            rw moved refl in
          subst (λ r. All (IsStored workspace r) (o ∷ os)) step
            (
              stored-loop now workspace o.path os (put_fingerprint now workspace o rows)
                    (ground arith)
                  ∙ ground (
                    arith,
                    not_observed o.path os (ground arith),
                    stored-put now workspace o.path o rows,
                    eq_refl o.path,
                  ),
              All-IsStored now workspace os (put_fingerprint now workspace o rows) (ground arith),
            )
    ]

nothing_new :
    (later : ℕ) (workspace : String) (rows : List Fingerprint) (os : List Observed)
    → All (IsStored workspace rows) os
    → fingerprint_loop later workspace os rows ≡ (rows, [])
unfolding fingerprint_loop
nothing_new later workspace rows [] h = refl
nothing_new later workspace rows (o ∷ os) h =
    rw (h.0, eq_refl o.hash) (nothing_new later workspace rows os h.1)

drifted-put :
    (now : ℕ) (workspace : String) (o : Observed) (rows : List Fingerprint) (os : List Observed)
    → any (keyed (λ (x : Observed). x.path) o.path) os ≡ false
    → select (has_drifted workspace (put_fingerprint now workspace o rows)) os
      ≡ select (has_drifted workspace rows) os
unfolding any select
drifted-put now workspace o rows [] h = refl
drifted-put now workspace o rows (x ∷ os) h =
    rw (stored-put now workspace x.path o rows, drifted-put now workspace o rows os (ground arith))
      (ground (arith, eq_iff o.path x.path, eq_iff x.path o.path))

changed_lem :
    (now : ℕ) (workspace : String) (os : List Observed) (rows : List Fingerprint)
    → unique_paths os ≡ true
    → (fingerprint_loop now workspace os rows).1 ≡ drifted workspace rows os
unfolding fingerprint_loop distinct select
changed_lem now workspace [] rows u = refl
changed_lem now workspace (o ∷ os) rows u =
    elim (Bool-cases (holds_hash (stored_hash workspace o.path rows) o.hash)) [
      | inl same ↦ rw same (changed_lem now workspace os rows (ground arith))
      | inr moved ↦
          rw
            (
              moved,
              changed_lem now workspace os (put_fingerprint now workspace o rows) (ground arith),
              drifted-put now workspace o rows os (ground arith),
            )
            refl
    ]

-- Recording the observed fingerprints of a workspace, in whatever order they are observed, stores each
-- observed hash and keeps what is stored for every other path; it returns the paths whose stored hash
-- was missing or different, and no other, sorted; and a second recording of the same observation
-- returns nothing and writes nothing.
pub fingerprints_settle :
    (now later : ℕ) (workspace : String) (os : List Observed) (db db' : Db) (changed : List String)
    → unique_paths os ≡ true
    → changed_fingerprints now workspace os db ≡ ok (db', changed)
    → (changed ≡ drifted workspace db.fingerprints (sort_by by_path os))
      × IsSorted str_le changed
      × ((path : String)
          → fingerprint_hash workspace path db'
            ≡ settled (observed_hash path os) (fingerprint_hash workspace path db))
      × (changed_fingerprints later workspace os db' ≡ ok (db', []))
unfolding changed_fingerprints fingerprint_hash
fingerprints_settle now later workspace os db db' changed u h =
    let sorted = sort_by by_path os in
    let u' : unique_paths sorted ≡ true = distinct-sorted os ∙ u in
    let rows : db'
        ≡ record db { fingerprints = (fingerprint_loop now workspace sorted db.fingerprints).0 } =
      ground arith in
    let list : changed ≡ (fingerprint_loop now workspace sorted db.fingerprints).1 = ground arith in
    let same = list ∙ changed_lem now workspace sorted db.fingerprints u' in
    let again =
      nothing_new later workspace (fingerprint_loop now workspace sorted db.fingerprints).0 sorted
        (All-IsStored now workspace sorted db.fingerprints u') in
    (
      same,
      rw same (drifted-IsSorted workspace db.fingerprints os),
      λ path. rw rows (
          stored-loop now workspace path sorted db.fingerprints u'
          ∙ ap (λ x. settled x (stored_hash workspace path db.fingerprints))
              (hash-sorted path os u)),
      ground (arith, rows, again),
    )
