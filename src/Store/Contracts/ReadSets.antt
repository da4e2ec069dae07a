-- ===== src/Store/Contracts/ReadSets.antt =====
-- `ChangedReadSet`: the label of the strongest evidence for a path is kept.
use overgent.Store.Contracts.{
  read_loop, changed_read_set, stored_read, is_read, put_read, with_fidelity, merge_fidelity,
  read_fidelity_rank, is_unchanged, is_skipped, has_path,
}
use overgent.Store.{Db, ReadRow}
use overgent.Prelude.Tables.{find, find_holds, find-upsert_self, find-upsert_ne}
use overgent.Prelude.{
  ℕ, ◌≤◌, ◌<◌, String, ◌≡◌, refl, ap, ◌∙◌, ◌≢◌, inl, inr, Option, none, some, List, [], ◌∷◌, arith,
  str_eq, eq_iff, eq_refl, ltb, if◌then◌else◌, ltb→lt, str_eq→eq, Bool-cases, Option-cases, ok,
}
use overgent.Store.{Db, ReadRow, ReadSetEntry}
use overgent.Store.Contracts.{
  read_loop, changed_read_set, stored_read, is_read, put_read, with_fidelity, merge_fidelity,
  read_fidelity_rank, is_unchanged, is_skipped, has_path,
}

-- The rank of the evidence that is stored for a path, 0 for none.
abbrev pub rank_of : Option ReadSetEntry → ℕ
rank_of none = 0
rank_of (some e) = read_fidelity_rank e.fidelity

abbrev pub stored_rank : String → String → String → List ReadRow → ℕ
stored_rank workspace session path rows = rank_of (stored_read workspace session path rows)

merge_rank :
    (stored : Option ReadSetEntry) (fidelity : String)
    → (rank_of stored ≤ read_fidelity_rank (merge_fidelity stored fidelity))
      × (read_fidelity_rank fidelity ≤ read_fidelity_rank (merge_fidelity stored fidelity))
unfolding merge_fidelity
merge_rank none fidelity = omega arith
merge_rank (some s) fidelity =
    elim (Bool-cases (ltb (read_fidelity_rank fidelity) (read_fidelity_rank s.fidelity))) [
      | inl e ↦ rw e (
        omega arith,
        omega (arith, ltb→lt (read_fidelity_rank fidelity) (read_fidelity_rank s.fidelity) e),
      )
      | inr e ↦ rw e (ground arith, omega arith)
    ]

stored-put_read :
    (workspace session path : String) (entry : ReadSetEntry) (rows : List ReadRow)
    → stored_read workspace session path (put_read workspace session entry rows)
      ≡ (if str_eq entry.path path then some entry else stored_read workspace session path rows)
stored-put_read workspace session path entry rows = elim (Bool-cases (str_eq entry.path path)) [
  | inl e ↦ elim (Option-cases (find (is_read workspace session entry.path) rows)) [
    | inl missing ↦ ground (arith, str_eq→eq entry.path path e, missing, self)
    | inr (old, found) ↦ ground (
      arith,
      str_eq→eq entry.path path e,
      found,
      self,
      find_holds (is_read workspace session entry.path) rows old found,
      eq_iff old.entry.path entry.path,
    )
  ]
  | inr e ↦ ground (
    arith,
    find-upsert_ne (is_read workspace session entry.path) (is_read workspace session path) set new
        rows
        (λ r m.
          ground (
            arith,
            eq_iff r.entry.path entry.path,
            eq_iff r.entry.path path,
            eq_iff entry.path path,
          ))
        (λ r. refl) (ground arith),
  )
]
  where
    set : ReadRow → ReadRow
    set r = record r { entry = record entry { path = r.entry.path } }

    new : ReadRow
    new = record { workspace_id = workspace; session = session; entry = entry }

    self :
        find (is_read workspace session entry.path) (put_read workspace session entry rows)
        ≡ (elim (find (is_read workspace session entry.path) rows) [
          | none ↦ some new
          | some old ↦ some (set old)
        ])
    self =
        find-upsert_self (is_read workspace session entry.path) set new rows (λ r m. m)
          (ground (arith, eq_refl workspace, eq_refl session, eq_refl entry.path))

rank-put :
    (workspace session path : String) (entry : ReadSetEntry) (rows : List ReadRow)
    → stored_rank workspace session path rows
      ≤ stored_rank workspace session path
          (put_read workspace session (with_fidelity rows workspace session entry) rows)
rank-put workspace session path entry rows =
    let kept = with_fidelity rows workspace session entry in
    rw (stored-put_read workspace session path kept rows)
      (elim (Bool-cases (str_eq entry.path path)) [
        | inl e ↦ rw e (
            rw (← str_eq→eq entry.path path e)
              ((merge_rank (stored_read workspace session entry.path rows) entry.fidelity).0))
        | inr e ↦ rw e (omega arith)
      ])

rank-loop :
    (workspace session path : String) (seen : List String) (entries : List ReadSetEntry)
    (rows : List ReadRow)
    → stored_rank workspace session path rows
      ≤ stored_rank workspace session path (read_loop workspace session seen entries rows).0
unfolding read_loop
rank-loop workspace session path seen [] rows = omega arith
rank-loop workspace session path seen (entry ∷ entries) rows =
    let kept = with_fidelity rows workspace session entry in
    let later =
      rank-loop workspace session path (entry.path ∷ seen) entries
        (put_read workspace session kept rows) in
    elim (Bool-cases (is_skipped entry seen)) [
      | inl e ↦ rw e (rank-loop workspace session path seen entries rows)
      | inr e ↦
          rw e
            (elim (Bool-cases (is_unchanged (stored_read workspace session entry.path rows) kept)) [
              | inl u ↦ rw u (omega (arith, later, rank-put workspace session path entry rows))
              | inr u ↦ rw u (omega (arith, later, rank-put workspace session path entry rows))
            ])
    ]

-- Whatever a session reports of its reads, the evidence recorded for a path never becomes weaker.
fidelity_never_falls :
    (workspace session path : String) (entries changed : List ReadSetEntry) (db db' : Db)
    → changed_read_set workspace session entries db ≡ ok (db', changed)
    → stored_rank workspace session path db.read_sets
      ≤ stored_rank workspace session path db'.read_sets
unfolding changed_read_set
fidelity_never_falls workspace session path entries changed db db' h =
    let rows : db'.read_sets ≡ (read_loop workspace session [] entries db.read_sets).0 =
      ground arith in
    rw rows (rank-loop workspace session path [] entries db.read_sets)

-- A read of weaker evidence than is stored for its path replaces the stored hash and time by its
-- own, under the stronger label.
weaker_read_keeps_label :
    (workspace session : String) (stored entry : ReadSetEntry) (db db' : Db)
    (changed : List ReadSetEntry)
    → entry.path ≢ ""
    → entry.hash ≢ ""
    → stored_read workspace session entry.path db.read_sets ≡ some stored
    → read_fidelity_rank entry.fidelity < read_fidelity_rank stored.fidelity
    → changed_read_set workspace session (entry ∷ []) db ≡ ok (db', changed)
    → stored_read workspace session entry.path db'.read_sets
      ≡ some (record entry { fidelity = stored.fidelity })
unfolding changed_read_set read_loop merge_fidelity has_path
weaker_read_keeps_label workspace session stored entry db db' changed p q at weaker h =
    let kept = record entry { fidelity = stored.fidelity } in
    let merged : with_fidelity db.read_sets workspace session entry ≡ kept = rw at (ground arith) in
    let rows : db'.read_sets
        ≡ put_read workspace session (with_fidelity db.read_sets workspace session entry)
            db.read_sets =
      ground (arith, eq_iff entry.path "", eq_iff entry.hash "") in
    let rows' : db'.read_sets ≡ put_read workspace session kept db.read_sets =
      rows ∙ ap (λ (e : ReadSetEntry). put_read workspace session e db.read_sets) merged in
    rw rows' (
      stored-put_read workspace session entry.path kept db.read_sets ∙ rw (eq_refl entry.path) refl)
