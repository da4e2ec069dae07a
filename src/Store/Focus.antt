-- ===== src/Store/Focus.antt =====
-- Focus of internal/store/store.go: coordination into one session is held back until a deadline.
pub mod Deadlines
use overgent.Prelude.{
  ℕ, zero, suc, ◌+◌, ◌*◌, String, Bool, Option, none, some, List, [], str_eq, ltb, leb,
  if◌then◌else◌, length, Result, ok, err, str_le,
}
use overgent.Prelude.Int.{ℤ, pos, negsuc}
use overgent.Prelude.Tables.{find, delete, update, any, upsert}
use overgent.Prelude.Tables.Order.{sort_by}
use overgent.Store.{Db, FocusRow, Error, invalid, unix_milli}

-- time.Hour and 8 * time.Hour, in nanoseconds
abbrev pub default_focus : ℕ
default_focus = 3600000000000

abbrev pub max_focus : ℕ
max_focus = 28800000000000

-- The duration that is granted: `time.Duration` is signed.
unfoldable pub granted : ℤ → ℕ
granted (negsuc n) = default_focus
granted (pos zero) = default_focus
granted (pos (suc n)) = if ltb max_focus (suc n) then max_focus else suc n

abbrev pub is_focus : String → FocusRow → Bool
is_focus session f = str_eq f.session_key session

unfoldable pub set_focus : String → ℕ → ℤ → Db → Result Error (Db × ℕ)
unfolding upsert any update granted
set_focus session now duration db =
    let until = now + granted duration in
    if str_eq session ""
    then err invalid
    else ok (
      record db {
        focus =
            upsert (is_focus session) (λ (f : FocusRow). record f { until = unix_milli until })
              (record {
                session_key = session;
                until = unix_milli until;
                created_at = unix_milli now;
              })
              db.focus;
      },
      until,
    )

unfoldable pub clear_focus : String → Db → Db
unfolding delete
clear_focus session db = record db { focus = delete (is_focus session) db.focus }

unfoldable pub clear_all_focus : Db → Db × ℕ
clear_all_focus db = (record db { focus = [] }, length db.focus)

-- `time.UnixMilli`, in nanoseconds
abbrev pub from_milli : ℕ → ℕ
from_milli ms = ms * 1000000

-- `none` is the answer "not focused".
unfoldable pub focused_until : String → ℕ → Db → Option ℕ
unfolding find
focused_until session now db =
    if str_eq session "" then none else elim (find (is_focus session) db.focus) [
      | none ↦ none
      | some f ↦ if ltb now (from_milli f.until) then some (from_milli f.until) else none
    ]

-- WHERE until<=?
abbrev pub has_lapsed : ℕ → FocusRow → Bool
has_lapsed now f = leb f.until (unix_milli now)

unfoldable pub active_focus : ℕ → Db → Db × List FocusRow
unfolding delete
active_focus now db =
    let rows = delete (has_lapsed now) db.focus in
    (
      record db { focus = rows },
      sort_by (λ (a b : FocusRow). str_le a.session_key b.session_key) rows,
    )
