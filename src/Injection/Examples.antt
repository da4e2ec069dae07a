-- ===== src/Injection/Examples.antt =====
-- Injections of a small brief by internal/app/app.go.
use overgent.Prelude.{
  ℕ, ◌≤◌, String, ◌≡◌, refl, ◌≢◌, true, false, none, some, [], ◌∷◌, str_eq, if◌then◌else◌,
}
use overgent.Prelude.Tables.{find}
use overgent.Prelude.Int.{pos}
use Prim.Native.String.{len}
use overgent.Config
use overgent.Config.{Config}
use overgent.Store.{Db}
use overgent.Store.Focus.{set_focus, focused_until}
use overgent.Store.Examples.{codec, small, first_of}
use overgent.Publisher.Failures.{Failure}
use overgent.Injection.{
  BriefItem, Listener, Request, Context, select_injection_items, render_injection,
  claim_mid_turn_fetch, workspace_for_any_root, published_workstream_id, is_fetch,
}
use overgent.Injection.Handler.{silent, handle_agent_injection}
use overgent.Injection.Handover.{unshown_undelivered}
use overgent.Injection.Limits.{injection_fits, focus_silences}

abbrev correction : BriefItem
correction = record {
  id = "i1";
  revision = 1;
  text = "Retry moved";
  relevance_reason = "";
  advisory_action = "coordination_required";
}

abbrev failure : Failure
failure = record { api = none; is_canceled = false; lowered = "timeout" }

abbrev context : Context ℕ
context = record {
  outside = record {
    codec = codec;
    send = λ s w b. (s, none);
    has_factory = true;
    build = λ b. true;
    describe = λ e. failure;
  };
  absolute = some;
  eval_symlinks = some;
  clean = λ s. s;
  relative = λ root path. if str_eq root path then some "." else some "..";
  separator = "/";
  provides_briefs = true;
  create_brief = λ session. some (correction ∷ []);
  has_expired = false;
  digest16 = λ s. "x";
}

abbrev workspace : Config.Workspace
workspace = record {
  id = "w1";
  project_id = "p1";
  workstream = "s1";
  root = "/r";
  baseline = "b";
  fingerprint = "f";
  member_id = "m1";
  session_id = "x1";
}

abbrev profile : Config
profile = record {
  version = 2;
  backends =
      record { id = "bk"; api_base_url = "https://acme"; device_id = "d1"; kind = "team" } ∷ [];
  projects = record { id = "p1"; backend_id = "bk" } ∷ [];
  workspaces = workspace ∷ [];
}

abbrev listening : Db → Listener
listening db = record {
  service = record { db = db; config = profile; senders = []; publish_error = "" };
  mid_turn = [];
}

abbrev request : String → Request
request event = record {
  agent_event = event;
  agent_workstream_id = "wrk_1";
  agent_vendor = "claude";
  agent_cwd = "/r";
  agent_candidate_roots = [];
}

injection_fits_example :
    len
      (handle_agent_injection context 5
        (request "SessionStart")
        (listening small)).1.additional_context
    ≤ 3200
injection_fits_example = injection_fits context 5 (request "SessionStart") (listening small)

abbrev stopping : Request
stopping = request "Stop"

unshown_undelivered_example :
    (handle_agent_injection context 5 stopping (listening small)).0.service.db ≡ small
unfolding handle_agent_injection
unshown_undelivered_example = unshown_undelivered context 5 stopping (listening small) refl

abbrev quiet : Db
quiet =
    first_of
      (set_focus (published_workstream_id context "wrk_1" "p1" "w1") 5 (pos 60000000000) small)

focus_silences_example :
    (handle_agent_injection context 7 (request "PostToolUse") (listening quiet) ≡ (
      record {
        service = (listening quiet).service;
        mid_turn =
            (claim_mid_turn_fetch
              (request "PostToolUse").agent_workstream_id
              7
              (listening quiet).mid_turn).0;
      },
      silent,
    ))
    × ((other : String)
        → (request "PostToolUse").agent_workstream_id ≢ other
        → find
            (is_fetch other)
            (handle_agent_injection context 7 (request "PostToolUse") (listening quiet)).0.mid_turn
          ≡ find (is_fetch other) (listening quiet).mid_turn)
unfolding workspace_for_any_root set_focus focused_until published_workstream_id
focus_silences_example =
    focus_silences context 7 (request "PostToolUse") (listening quiet) workspace refl refl

-- A correction is given once.
gives_once :
    ((handle_agent_injection context 7 (request "SessionStart") (listening small)).1.item_ids
      ≡ "i1" ∷ [])
    × ((handle_agent_injection context 9
          (request "SessionStart")
          (handle_agent_injection context 7 (request "SessionStart") (listening small)).0).1
        ≡ silent)
unfolding handle_agent_injection Config.bound_to overgent.Prelude.Tables.select
    overgent.Injection.injection_line overgent.Config.Origin.is_space
gives_once = (refl, refl)
