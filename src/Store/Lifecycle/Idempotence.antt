-- ===== src/Store/Lifecycle/Idempotence.antt =====
-- Idempotency keys, and the intent revision as a compare-and-swap.
use overgent.Prelude.{
  ℕ, ◌+◌, ◌≡◌, refl, ◌∙◌, ◌≢◌, inl, inr, Bool, true, false, ◌||◌, none, some, List, [], ◌∷◌, ◌++◌,
  arith, eq_iff, eq_refl, if◌then◌else◌, Option-cases, length, Result, ok, err,
}
use overgent.Prelude.Tables.{find, any}
use overgent.Store.{
  Db, Codec, WorkspaceRow, IdempotencyKey, is_workspace, Error, intent_conflict, idempotency_reused,
  invalid,
}
use overgent.Store.Lifecycle.{
  Publication, events, publish_new, publish_lifecycle, next_revision, set_counters, remember,
  is_key, is_refused, has_no_kind,
}
use overgent.Store.Lifecycle.Published.{published_exact}

-- The key that a publication remembers is its own, and no other was there.
found_again :
    (codec : Codec) (now : ℕ) (q : Publication) (r : ℕ) (keys : List IdempotencyKey)
    → find (is_key q) keys ≡ none
    → find (is_key q) (keys ++ remember codec now q r ∷ []) ≡ some (remember codec now q r)
unfolding find
found_again codec now q r [] h =
    ground (arith, eq_refl q.workspace_id, eq_refl q.method, eq_refl q.idempotency_key)
found_again codec now q r (k ∷ keys) h = ground (arith, found_again codec now q r keys)

never :
    (codec : Codec) (now : ℕ) (q : Publication) (db db' : Db) (r : ℕ) (duplicate : Bool)
    → find (is_workspace q.workspace_id) db.workspaces ≡ none
    → publish_new codec now q db ≢ ok (db', r, duplicate)
unfolding publish_new
never codec now q db db' r duplicate missing h = ground arith

-- What a successful publication leaves under its key.
remembered :
    (codec : Codec) (now : ℕ) (q : Publication) (db db' : Db) (r : ℕ) (duplicate : Bool)
    → publish_lifecycle codec now q db ≡ ok (db', r, duplicate)
    → (k : IdempotencyKey) × (find (is_key q) db'.idempotency_keys ≡ some k)
      × (k.request_hash ≡ codec.request_hash (events q))
      × (k.response_revision ≡ r)
unfolding publish_lifecycle
remembered codec now q db db' r duplicate h =
    elim (Option-cases (find (is_key q) db.idempotency_keys)) [
      | inr (k, e) ↦ (
        k,
        ground (arith, e),
        ground (arith, e, eq_iff k.request_hash (codec.request_hash (events q))),
        ground (arith, e),
      )
      | inl e ↦ elim (Option-cases (find (is_workspace q.workspace_id) db.workspaces)) [
        | inl missing ↦ absurd (never codec now q db db' r duplicate missing (ground arith))
        | inr (row, found) ↦ (
          remember codec now q r,
          rw ((published_exact codec now q db db' row r duplicate found (ground arith)).5)
              (found_again codec now q r db.idempotency_keys e),
          refl,
          refl,
        )
      ]
    ]

same_key :
    (p q : Publication) (keys : List IdempotencyKey)
    → p.workspace_id ≡ q.workspace_id
    → p.method ≡ q.method
    → p.idempotency_key ≡ q.idempotency_key
    → find (is_key p) keys ≡ find (is_key q) keys
unfolding find
same_key p q [] w m k = refl
same_key p q (x ∷ keys) w m k = ground (arith, same_key p q keys w m k)

not_refused :
    (b : Bool) (m : Result Error (Db × ℕ × Bool)) {x : Db × ℕ × Bool}
    → (if b then err invalid else m) ≡ ok x
    → b ≡ false
not_refused true m h = cc
not_refused false m h = refl

accepted :
    (codec : Codec) (now : ℕ) (q : Publication) (db db' : Db) (r : ℕ) (duplicate : Bool)
    → publish_lifecycle codec now q db ≡ ok (db', r, duplicate)
    → (is_refused q || any has_no_kind (events q)) ≡ false
unfolding publish_lifecycle
accepted codec now q db db' r duplicate h =
    not_refused (is_refused q || any has_no_kind (events q)) _ h

-- A key that was used for other events is refused, whatever the publication asks for.
key_reuse_refused :
    (codec : Codec) (now later : ℕ) (q p : Publication) (db db' : Db) (r : ℕ) (duplicate : Bool)
    → publish_lifecycle codec now q db ≡ ok (db', r, duplicate)
    → p.workspace_id ≡ q.workspace_id
    → p.method ≡ q.method
    → p.idempotency_key ≡ q.idempotency_key
    → codec.request_hash (events p) ≢ codec.request_hash (events q)
    → (is_refused p || any has_no_kind (events p)) ≡ false
    → publish_lifecycle codec later p db' ≡ err idempotency_reused
unfolding publish_lifecycle
key_reuse_refused codec now later q p db db' r duplicate h w m k differ fine =
    let (key, found, hash, revision) = remembered codec now q db db' r duplicate h in
    rw fine (
      ground (
        arith,
        same_key p q db'.idempotency_keys w m k,
        found,
        hash,
        eq_iff key.request_hash (codec.request_hash (events p)),
      ))

conflict :
    (codec : Codec) (later n : ℕ) (p : Publication) (db : Db) (row : WorkspaceRow)
    → find (is_workspace p.workspace_id) db.workspaces ≡ some row
    → row.intent_revision ≡ n + 1
    → p.increment_intent_revision ≡ true
    → p.expected_intent_revision ≡ some n
    → publish_new codec later p db ≡ err (intent_conflict (n + 1))
unfolding publish_new next_revision
conflict codec later n p db row found at inc ex = ground arith

first_new :
    (codec : Codec) (now : ℕ) (q : Publication) (db db' : Db) (r : ℕ)
    → (is_refused q || any has_no_kind (events q)) ≡ false
    → find (is_key q) db.idempotency_keys ≡ none
    → publish_lifecycle codec now q db ≡ ok (db', r, false)
    → publish_new codec now q db ≡ ok (db', r, false)
unfolding publish_lifecycle
first_new codec now q db db' r fine e h = rw (fine, e) at h

first_was_new :
    (codec : Codec) (now : ℕ) (q : Publication) (db db' : Db) (r : ℕ) (k : IdempotencyKey)
    → (is_refused q || any has_no_kind (events q)) ≡ false
    → find (is_key q) db.idempotency_keys ≡ some k
    → publish_lifecycle codec now q db ≢ ok (db', r, false)
unfolding publish_lifecycle
first_was_new codec now q db db' r k fine e h = ground (arith, e)

-- Of two publications that expect one intent revision and raise it, the second is refused with the
-- revision that the first one stored.
pub one_revision_wins :
    (codec : Codec) (now later : ℕ) (q p : Publication) (db db' : Db) (r n : ℕ)
    → publish_lifecycle codec now q db ≡ ok (db', r, false)
    → q.increment_intent_revision ≡ true
    → q.expected_intent_revision ≡ some n
    → p.workspace_id ≡ q.workspace_id
    → p.increment_intent_revision ≡ true
    → p.expected_intent_revision ≡ some n
    → (is_refused p || any has_no_kind (events p)) ≡ false
    → find (is_key p) db'.idempotency_keys ≡ none
    → publish_lifecycle codec later p db' ≡ err (intent_conflict (n + 1))
unfolding publish_lifecycle
one_revision_wins codec now later q p db db' r n h inc ex w inc' ex' fine new = rw fine (
    rw new (elim (Option-cases (find (is_key q) db.idempotency_keys)) [
      | inr (k, e) ↦
          absurd (first_was_new codec now q db db' r k (accepted codec now q db db' r false h) e h)
      | inl e ↦ elim (Option-cases (find (is_workspace q.workspace_id) db.workspaces)) [
        | inl missing ↦ absurd (
            never codec now q db db' r false missing
              (first_new codec now q db db' r (accepted codec now q db db' r false h) e h))
        | inr (row, found) ↦
            let exact =
              published_exact codec now q db db' row r false found
                (first_new codec now q db db' r (accepted codec now q db db' r false h) e h) in
            let at : n ≡ row.intent_revision = exact.2 n inc ex in
            let up : r ≡ row.intent_revision + 1 = exact.1 ∙ rw inc in
            conflict codec later n p db' (set_counters (row.sequence + length (events q)) r row)
              (rw w exact.4) (omega arith) inc' ex'
      ]
    ]))
