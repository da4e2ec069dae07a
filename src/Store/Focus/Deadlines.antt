-- ===== src/Store/Focus/Deadlines.antt =====
-- Every focus ends, and the two readings of a deadline agree.
use overgent.Store.Focus.{active_focus}
use overgent.Prelude.{
  ℕ, zero, suc, ◌+◌, ◌≤◌, ◌<◌, String, ◌≡◌, refl, ◌≢◌, inl, inr, true, false, not, none, some, List,
  [], ◌∷◌, arith, eq_iff, eq_refl, ltb, str_eq→eq, Bool-cases, is_some, ok, str_le,
}
use overgent.Prelude.Int.{ℤ, pos, negsuc}
use overgent.Prelude.Tables.Order.{any-sort_by}
use overgent.Prelude.Tables.Rows.{distinct, keyed}
use overgent.Prelude.Tables.{
  find, delete, any, upsert, any-delete, find-upsert_self, find-upsert_ne,
}
use overgent.Store.{Db, FocusRow, unix_milli}
use overgent.Store.Focus.{
  granted, set_focus, focused_until, is_focus, has_lapsed, from_milli, max_focus,
}

pub granted_bounds : (d : ℤ) → (0 < granted d) × (granted d ≤ max_focus)
unfolding granted
granted_bounds (negsuc n) = omega arith
granted_bounds (pos zero) = omega arith
granted_bounds (pos (suc n)) = ground arith

-- Whatever duration is asked for, a focus that is set ends later than now and at most eight hours
-- from now; the session is focused up to the last millisecond before that end and no longer from the
-- end on; and no other session's focus changes.
set_focus_bounds :
    (session : String) (now until : ℕ) (d : ℤ) (db db' : Db)
    → set_focus session now d db ≡ ok (db', until)
    → (now < until)
      × (until ≤ now + max_focus)
      × ((t : ℕ) → until ≤ t → focused_until session t db' ≡ none)
      × ((t : ℕ)
          → t + 1000000 ≤ until
          → focused_until session t db' ≡ some (from_milli (unix_milli until)))
      × ((other : String) (t : ℕ)
          → session ≢ other
          → focused_until other t db' ≡ focused_until other t db)
unfolding set_focus focused_until
set_focus_bounds session now until d db db' h =
    let end : until ≡ now + granted d = ground arith in
    let row : FocusRow = record {
      session_key = session;
      until = unix_milli until;
      created_at = unix_milli now;
    } in
    let set : FocusRow → FocusRow = λ (f : FocusRow). record f { until = unix_milli until } in
    let rows : db'.focus ≡ upsert (is_focus session) set row db.focus = ground arith in
    let found = find-upsert_self (is_focus session) set row db.focus (λ f m. m) (eq_refl session) in
    (
      omega (arith, granted_bounds d),
      omega (arith, granted_bounds d),
      λ t late. ground (arith, rows, found),
      λ t early. ground (arith, rows, found),
      λ other t n. ground (
        arith,
        rows,
        find-upsert_ne (is_focus session) (is_focus other) set row db.focus
            (λ f m. ground (arith, eq_iff f.session_key session, eq_iff f.session_key other))
            (λ f. refl) (ground (arith, eq_iff session other)),
      ),
    )

-- A deadline in whole milliseconds has lapsed for the sweep exactly when it does not lie after now.
lapsed_iff : (now : ℕ) (f : FocusRow) → has_lapsed now f ≡ not (ltb now (from_milli f.until))
lapsed_iff now f = ground arith

other_row :
    (session : String) (now : ℕ) (f : FocusRow) (rows : List FocusRow)
    → any (keyed (λ (g : FocusRow). g.session_key) f.session_key) rows ≡ false
    → f.session_key ≡ session
    → any (is_focus session) (delete (has_lapsed now) rows) ≡ false
other_row session now f rows u e = any-delete (has_lapsed now) (is_focus session) rows (rw (← e) u)

swept :
    (session : String) (now : ℕ) (rows : List FocusRow)
    → distinct (λ (f : FocusRow). f.session_key) rows ≡ true
    → any (is_focus session) (delete (has_lapsed now) rows) ≡ (elim (find (is_focus session) rows) [
      | none ↦ false
      | some f ↦ ltb now (from_milli f.until)
    ])
unfolding find delete any distinct
swept session now [] u = refl
swept session now (f ∷ rows) u = elim (Bool-cases (is_focus session f)) [
  | inl m ↦ ground (
    arith,
    lapsed_iff now f,
    other_row session now f rows (ground arith) (str_eq→eq f.session_key session m),
  )
  | inr m ↦ ground (arith, swept session now rows)
]

-- `ActiveFocus` sweeps away what has lapsed and nothing else: where a session has one row at most, it
-- lists the session exactly when `FocusedUntil` says that it is focused.
readings_agree :
    (session : String) (now : ℕ) (db : Db)
    → session ≢ ""
    → distinct (λ (f : FocusRow). f.session_key) db.focus ≡ true
    → any (is_focus session) (active_focus now db).1 ≡ is_some (focused_until session now db)
unfolding active_focus focused_until
readings_agree session now db n u = ground (
  arith,
  any-sort_by (λ (a b : FocusRow). str_le a.session_key b.session_key) (is_focus session)
      (delete (has_lapsed now) db.focus),
  swept session now db.focus u,
  eq_iff session "",
)
