-- ===== src/Tests/Plans.antt =====
-- The theorems on scheduling, waiting and planning at the data of Data.
use houdry.Resources.{first_non_empty}
use houdry.Prelude.{
  ℕ, zero, suc, arith, String, Bool, true, false, ◌≡◌, ◌≤◌, ◌<◌, ◌||◌, refl, inl, inr, ◌⊎◌, List,
  [], ◌∷◌, Option, none, some, In, All, is_some,
}
use houdry.Prelude.Int.{pos}
use houdry.Prelude.Results.{ok, err}
use houdry.Model.{Model, has_model, identity, match, matches, equal_name_tag, normalize}
use houdry.Text.{lower, lower_code, trim_space, eq_codes, equal_fold, codes, contains, contains_any}
use houdry.Nodes.{Node}
use houdry.Jobs.{Job, lookup, claim}
use houdry.Jobs.Board.{Move, board, Step-Move}
use houdry.Jobs.Lifecycle.{claims}
use houdry.Jobs.Waiting.{IsSeen, IsPending, wait_job, wait_job_lem}
use houdry.Scheduler.{try_schedule_queued}
use houdry.Scheduler.Order.{IsSame, schedule-same}
use houdry.Routing.Scoring.{
  known_vram, Complexity, CatalogEntry, RouteRequest, Candidate, has_cap, is_visual, node_eligible,
  entry_supports, complexity_rank, score_pair, lacks_runtime, is_short_of_vram,
}
use houdry.Routing.Choosing.{Decision, route, adjusted, for_tools, for_image, is_offered, on_nodes}
use houdry.Routing.Analysis.{analyze, asks_for_vision, asks_for_document}
use houdry.Routing.Grading.{IsGraded, analyze-IsGraded, visual_prompt-sees, route_prompt}
use houdry.Routing.Catalog.{pick_fitting_model, is_pickable, size_of, catalog_from_models}
use houdry.Routing.Availability.{route_inventory}
use houdry.Routing.Picking.{rows, IsHeld, pick_fitting_model_lem}
use houdry.Server.Certificates.{Response, Credentials, authorized}
use houdry.Server.Chat.{Plan, Refusal, plan_auto}
use houdry.Server.Planning.{IsListed, plan_auto-IsListed}
use houdry.Server.Prompts.{PromptRequest, RouteAnswer, handle_route, job_request}
use houdry.Server.Queueing.{IsSubmitted}
use houdry.Server.Routed.{IsPreferred, IsRouted}
use houdry.Server.Submitting.{decided, handle_route-IsSubmitted}
use houdry.Tests.Data.{server, queue, ready_node, draining_node, loaded_model}
use houdry.Tests.Work.{queue-IsJobStore}
use houdry.Tests.Routes.{view, request, greeting}

analyze-IsGraded_example : IsGraded (analyze "Explain why the proof is step by step")
analyze-IsGraded_example = analyze-IsGraded "Explain why the proof is step by step"

abbrev reversed : List Node
reversed = draining_node ∷ ready_node ∷ []

swapped : IsSame (ready_node ∷ draining_node ∷ []) reversed
swapped = record {
  forth = λ n i. elim i [
    | inl e ↦ inr (inl e)
    | inr k ↦ elim k [ inl e ↦ inl e | inr t ↦ inr (inr t) ]
  ];
  back = λ n i. elim i [
    | inl e ↦ inr (inl e)
    | inr k ↦ elim k [ inl e ↦ inl e | inr t ↦ inr (inr t) ]
  ];
}

schedule-same_example :
    lookup "j1" (try_schedule_queued (ready_node ∷ draining_node ∷ []) queue)
    ≡ lookup "j1" (try_schedule_queued reversed queue)
schedule-same_example =
    schedule-same (ready_node ∷ draining_node ∷ []) reversed queue queue (refl, (refl, tt))
      (refl, (refl, tt)) swapped queue-IsJobStore queue-IsJobStore (λ id. refl) "j1"

Step-Move_example : Move (board queue) (board (claim 7 "n1" queue).0)
Step-Move_example = Step-Move (claims 7 "n1") queue-IsJobStore

-- The job is pending all along, and the context ends at the third look.
abbrev ends : ℕ → Bool
ends n = elim n [ zero ↦ false | suc k ↦ elim k [ zero ↦ false | suc l ↦ true ] ]

wait_job_lem_example :
    (at : ℕ) × (at ≤ 2)
    × IsSeen "j2" (λ _. queue) ends at (wait_job "j2" (λ _. queue) ends 5 0)
    × ((i : ℕ) → i < at → IsPending "j2" (λ _. queue) ends i)
wait_job_lem_example = wait_job_lem "j2" (λ _. queue) ends 5 2 refl (omega arith)

abbrev stocked : RouteRequest
stocked = record request { catalog = catalog_from_models view.models }

there : has_model view.models (identity loaded_model) ≡ true
unfolding has_model match matches equal_name_tag normalize lower trim_space eq_codes
there = refl

eligible : node_eligible view.status stocked.allow_busy ≡ true
unfolding node_eligible equal_fold eq_codes lower lower_code
eligible = refl

text_task : is_visual (adjusted stocked greeting).modality ≡ false
unfolding adjusted for_tools for_image
text_task = refl

route_inventory_example : is_some (route [] greeting stocked).selected ≡ true
route_inventory_example =
    route_inventory [] greeting stocked view.models loaded_model view refl refl text_task
      (inr (inl refl)) (inl refl) eligible there

-- A row of the catalog for the model of the ready node.
abbrev llama_row : CatalogEntry
llama_row = record {
  name = "llama";
  tag = "8b";
  runtime = "";
  capabilities = "chat" ∷ "vision" ∷ [];
  max_complexity = Complexity.medium;
  min_vram_bytes = 0;
  priority = pos 0;
}

abbrev spare : Candidate
spare = record {
  entry = llama_row;
  node_id = "";
  host = "";
  score = pos 0;
  loaded = false;
  present = false;
}

abbrev chosen_of : Option Candidate → Candidate
chosen_of none = spare
chosen_of (some c) = c

abbrev seeing : RouteRequest
seeing = record request { catalog = llama_row ∷ []; nodes = view ∷ [] }

abbrev picture : Candidate
picture = chosen_of (route_prompt [] "ocr" seeing).selected

picture_chosen : (route_prompt [] "ocr" seeing).selected ≡ some picture
unfolding route_prompt route analyze contains_any contains lower trim_space has_cap equal_fold
    is_offered entry_supports complexity_rank on_nodes node_eligible score_pair lacks_runtime
    first_non_empty is_short_of_vram
picture_chosen = refl

asks :
    (asks_for_vision (lower (codes (trim_space "ocr")))
      || asks_for_document (lower (codes (trim_space "ocr"))))
    ≡ true
unfolding asks_for_vision asks_for_document lower trim_space contains_any contains
asks = refl

visual_prompt-sees_example : has_cap picture.entry.capabilities "vision" ≡ true
visual_prompt-sees_example = visual_prompt-sees [] "ocr" seeing picture asks picture_chosen

pick_fitting_model_lem_example :
    ((pick_fitting_model view false (llama_row ∷ []) ≡ none)
      × All
          (λ m. is_pickable (rows (llama_row ∷ [])) false (known_vram view) m ≡ false)
          view.models)
    ⊎ ((m : Model) × (pick_fitting_model view false (llama_row ∷ []) ≡ some m)
        × In m view.models
        × IsHeld view false (llama_row ∷ []) m
        × All
            (λ b.
              is_pickable (rows (llama_row ∷ [])) false (known_vram view) b ≡ true
              → size_of (rows (llama_row ∷ [])) m ≤ size_of (rows (llama_row ∷ [])) b)
            view.models)
pick_fitting_model_lem_example = pick_fitting_model_lem view false (llama_row ∷ [])

plan_auto-IsListed_example :
    ((e : Refusal) × (plan_auto (llama_row ∷ []) "hello" true server ≡ err e))
    ⊎ ((p : Plan) × (plan_auto (llama_row ∷ []) "hello" true server ≡ ok p)
        × IsListed (llama_row ∷ []) server p)
plan_auto-IsListed_example = plan_auto-IsListed (llama_row ∷ []) "hello" true server

abbrev show_route : Decision → Candidate → String
show_route d c = "{}"

abbrev prompt : PromptRequest
prompt = record {
  prompt = "hello";
  runtime = "";
  require_present = false;
  execute = true;
  node_id = "";
}

abbrev token : Credentials
token = record { houdry_token = "secret"; authorization = "" }

handle_route-IsSubmitted_example :
    ((e : Response) × ((handle_route show_route 9 "j9" token
          (llama_row ∷ [])
          (some prompt)
          server).1
        ≡ err e))
    ⊎ ((a : RouteAnswer) × ((handle_route show_route 9 "j9" token
            (llama_row ∷ [])
            (some prompt)
            server).1
          ≡ ok a)
        × ((a.job ≡ none)
            ⊎ ((j : Job) × (a.job ≡ some j)
                × (authorized token server ≡ true)
                × (prompt.execute ≡ true)
                × ((decided show_route (llama_row ∷ []) prompt server).deferred ≡ false)
                × ((c : Candidate) × IsPreferred (llama_row ∷ []) prompt server c
                    × IsRouted "j9" prompt c j
                    × IsSubmitted 9 "j9" "inference"
                        (job_request show_route prompt
                          (decided show_route (llama_row ∷ []) prompt server)
                          c)
                        server
                        (handle_route show_route 9 "j9" token
                          (llama_row ∷ [])
                          (some prompt)
                          server).0
                        j))))
handle_route-IsSubmitted_example =
    handle_route-IsSubmitted show_route 9 "j9" token (llama_row ∷ []) prompt server queue-IsJobStore
