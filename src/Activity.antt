-- ===== src/Activity.antt =====
-- internal/agentactivity/activity.go: what a hook of an agent tells, and which paths of it may be shared. Texts are bytes.
pub mod Paths
pub mod Sharing
pub mod Examples
use overgent.Prelude.{
  ℕ, zero, suc, String, Bool, true, false, ◌&&◌, ◌||◌, Option, none, some, List, [], ◌∷◌, ◌++◌,
  str_eq, ltb, ◌==◌, if◌then◌else◌, length, Result, ok, err,
}
use overgent.Prelude.Outcomes.{◌>>=◌}
use overgent.Prelude.Tables.{any}
use overgent.Prelude.Tables.Order.{sort_by}
use overgent.Prelude.Bytes.{ascii, same, begins, contains, contains_byte, ends, split}

pub data ActivityError : Type 0 where
  no_root : ActivityError
  escapes : ActivityError
  invalid_path : ActivityError
  protected_path : ActivityError
  too_many_paths : ActivityError
  unsupported_event : ActivityError

-- The part of an Event that the paths of an observation decide.
pub record Event : Type 0 where
  pub cwd : List ℕ
  pub kind : List ℕ
  pub status : List ℕ
  pub action : List ℕ
  pub tool : List ℕ
  pub candidate_paths : List (List ℕ)

-- path/filepath and the file system under it, `strings.ToLower`, and the decimal digits of a number.
pub record Host : Type 0 where
  pub eval_symlinks : List ℕ → Option (List ℕ)
  pub is_abs : List ℕ → Bool
  pub join : List ℕ → List ℕ → List ℕ
  pub clean : List ℕ → List ℕ
  pub dir : List ℕ → List ℕ
  pub base : List ℕ → List ℕ
  pub rel : List ℕ → List ℕ → Option (List ℕ)
  pub to_slash : List ℕ → List ℕ
  pub separator : List ℕ
  pub to_lower : List ℕ → List ℕ
  pub digits : ℕ → List ℕ

abbrev is_among : List ℕ → List String → Bool
is_among s [] = false
is_among s (x ∷ xs) = same s (ascii x) || is_among s xs

module _ (o : Host) where
  unfoldable pub tool_label : List ℕ → List ℕ
  tool_label tool =
      let lower = o.to_lower tool in
      if is_among lower ("edit" ∷ "write" ∷ "multiedit" ∷ "apply_patch" ∷ "notebookedit" ∷ [])
      then ascii "editing"
      else (if is_among lower ("read" ∷ "glob" ∷ "grep" ∷ [])
          then ascii "inspecting files"
          else (if is_among lower ("bash" ∷ "exec_command" ∷ "write_stdin" ∷ [])
              then ascii "running a command"
              else (if is_among lower ("agent" ∷ "task" ∷ [])
                  then ascii "using a subagent"
                  else (if is_among lower ("websearch" ∷ "webfetch" ∷ [])
                      then ascii "researching"
                      else (if same lower [] then ascii "a tool" else ascii "tool " ++ tool)))))

  unfoldable pub tool_action : List ℕ → Bool → List ℕ
  tool_action tool completed =
      (if completed then ascii "Finished" else ascii "Using") ++ 32 ∷ tool_label tool

  unfoldable pub agent_label : List ℕ → List ℕ
  agent_label agent_type =
      if same agent_type [] then ascii "subagent" else agent_type ++ ascii " subagent"

  -- The status and the action that Parse gives an event of a kind.
  unfoldable pub describe : String → List ℕ → List ℕ → Result ActivityError (List ℕ × List ℕ)
  describe kind tool agent_type =
      if str_eq kind "SessionStart"
      then ok (ascii "active", ascii "Session started")
      else (if str_eq kind "UserPromptSubmit"
          then ok (ascii "active", ascii "Working on a new request")
          else (if str_eq kind "PreToolUse"
              then ok (ascii "active", tool_action tool false)
              else (if str_eq kind "PermissionRequest"
                  then ok (ascii "waiting", ascii "Waiting for permission")
                  else (if str_eq kind "PostToolUse"
                      then ok (ascii "active", tool_action tool true)
                      else (if str_eq kind "PostToolUseFailure"
                          then ok (ascii "error", tool_label tool ++ ascii " failed")
                          else (if str_eq kind "SubagentStart"
                              then ok (ascii "active", ascii "Started " ++ agent_label agent_type)
                              else (if str_eq kind "SubagentStop"
                                  then ok
                                      (ascii "active", ascii "Finished " ++ agent_label agent_type)
                                  else (if str_eq kind "Stop"
                                      then ok (ascii "idle", ascii "Turn finished")
                                      else (if str_eq kind "SessionEnd"
                                          then ok (ascii "done", ascii "Session ended")
                                          else err unsupported_event)))))))))

  abbrev pub is_protected : List ℕ → Bool
  is_protected segment =
      same segment (ascii ".env")
      || begins (ascii ".env.") segment
      || is_among segment (
          ".ssh" ∷ ".aws" ∷ ".azure" ∷ ".kube" ∷ ".npmrc" ∷ ".pypirc" ∷ ".git-credentials"
          ∷ "credentials" ∷ "secrets" ∷ "id_rsa" ∷ "id_ed25519" ∷ [])
      || ends (ascii ".pem") segment
      || ends (ascii ".key") segment

  -- validateSafePath
  unfoldable pub validate_safe_path : List ℕ → Result ActivityError Unit
  validate_safe_path value =
      if same value []
        || same value (ascii ".")
        || ltb 512 (length value)
        || contains_byte 0 value
        || contains (ascii "\\") value
      then err invalid_path
      else (if any is_protected (split 47 (o.to_lower value))
          then err protected_path
          else (if contains (ascii "/.config/gcloud/") (o.to_lower value)
              then err protected_path
              else ok tt))

  -- The loop of canonicalizeExisting, on fuel; without a value where the fuel runs out.
  unfoldable pub climb : ℕ → List ℕ → List ℕ → List ℕ → Option (List ℕ)
  climb zero absolute current remainder = none
  climb (suc fuel) absolute current remainder =
      let parent = o.dir current in
      let rest = o.join (o.base current) remainder in
      elim (same parent current) [
        | true ↦ some absolute
        | false ↦ elim (o.eval_symlinks parent) [
          | some resolved ↦ some (o.join resolved rest)
          | none ↦ climb fuel absolute parent rest
        ]
      ]

  -- canonicalizeExisting, with as much fuel as the path has bytes, and one.
  unfoldable pub canonicalize_existing : List ℕ → Option (List ℕ)
  canonicalize_existing absolute = elim (o.eval_symlinks absolute) [
    | some resolved ↦ some resolved
    | none ↦ climb (suc (length absolute)) absolute absolute []
  ]

  abbrev pub settled : List ℕ → List ℕ
  settled absolute = elim (canonicalize_existing absolute) [ none ↦ absolute | some p ↦ p ]

  abbrev pub absolute_of : List ℕ → List ℕ → List ℕ
  absolute_of cwd candidate = if o.is_abs candidate then candidate else o.join cwd candidate

  abbrev pub shared : List ℕ → Result ActivityError (List ℕ)
  shared path = do safe ← validate_safe_path path; ok path

  abbrev pub within : Option (List ℕ) → Result ActivityError (List ℕ)
  within none = err escapes
  within (some relative) =
      if same relative (ascii "..") || begins (ascii ".." ++ o.separator) relative
      then err escapes
      else shared (o.to_slash relative)

  -- One candidate of NormalizePaths.
  unfoldable pub normalize_path : List ℕ → List ℕ → List ℕ → Result ActivityError (List ℕ)
  normalize_path root cwd candidate =
      within (o.rel root (settled (o.clean (absolute_of cwd candidate))))

  abbrev pub add_path : List ℕ → List (List ℕ) → List (List ℕ)
  add_path p paths = if any (same p) paths then paths else paths ++ p ∷ []

  unfoldable pub normalize_loop :
      List ℕ → List ℕ → List (List ℕ) → List (List ℕ) → Result ActivityError (List (List ℕ))
  normalize_loop root cwd [] paths = ok paths
  normalize_loop root cwd (c ∷ cs) paths = do
    p ← normalize_path root cwd c
    normalize_loop root cwd cs (add_path p paths)

  -- `<` of strings, or equal
  unfoldable pub bytes_le : List ℕ → List ℕ → Bool
  bytes_le [] t = true
  bytes_le (c ∷ s) [] = false
  bytes_le (c ∷ s) (d ∷ t) = ltb c d || (c == d && bytes_le s t)

  abbrev pub more_paths : List (List ℕ) → List ℕ
  more_paths [] = []
  more_paths (p ∷ ps) = ascii " and " ++ o.digits (length (p ∷ ps)) ++ ascii " more"

  abbrev pub action_on : Event → List (List ℕ) → List ℕ
  action_on event [] = event.action
  action_on event (p ∷ ps) =
      if is_among event.kind ("PreToolUse" ∷ "PostToolUse" ∷ [])
      then tool_label event.tool ++ 32 ∷ p ++ more_paths ps
      else event.action

  abbrev pub finish_paths : Event → List (List ℕ) → Result ActivityError Event
  finish_paths event paths =
      if ltb 100 (length paths)
      then err too_many_paths
      else ok (record event { candidate_paths = paths; action = action_on event paths })

  abbrev pub with_root : Event → Option (List ℕ) → Result ActivityError Event
  with_root event none = err no_root
  with_root event (some root) = do
    paths ← normalize_loop root event.cwd event.candidate_paths []
    finish_paths event (sort_by bytes_le paths)

  -- NormalizePaths
  unfoldable pub normalize_paths : Event → List ℕ → Result ActivityError Event
  normalize_paths event repository_root = with_root event (o.eval_symlinks repository_root)
