-- ===== src/Tests/Pipeline.antt =====
-- Examples for http_pipeline.c.
use lamseryn.Prelude.{true, false, inr, refl, codes}
use lamseryn.Url.{split_path_query, percent_decode_strict}
use lamseryn.Url.Normalize.{path_normalize_absolute}
use lamseryn.Http.{complete_headers}
use lamseryn.Pipeline.{
  Conn, Parser, hpe_other, http_pipeline_classify_action, http_pipeline_build_apply_plan,
  http_pipeline_feed,
}
use lamseryn.Pipeline.Framing.{IsFramed, accepted-IsFramed}
use lamseryn.Pipeline.Plans.{IsJustified, http_pipeline_build_apply_plan_lem}
use lamseryn.Pipeline.Feed.{IsSettled, http_pipeline_feed-error}
use lamseryn.Tests.Http.{request, small_route}

accepted-IsFramed_example : IsFramed request
unfolding complete_headers http_pipeline_classify_action split_path_query percent_decode_strict
    path_normalize_absolute
accepted-IsFramed_example = accepted-IsFramed small_route request false (inr refl)

abbrev fresh : Conn
fresh = record { h1 = record request { headers_done = false }; draining = false }

abbrev ended : Conn
ended = record fresh { h1 = record request { message_done = true } }

http_pipeline_build_apply_plan_lem_example :
    IsJustified ended
      (http_pipeline_build_apply_plan ended.h1 (http_pipeline_classify_action ended))
http_pipeline_build_apply_plan_lem_example = http_pipeline_build_apply_plan_lem ended

-- A parser that refuses everything.
abbrev refusing : Parser
refusing h buf = (hpe_other 1, h)

http_pipeline_feed-error_example :
    IsSettled
      (http_pipeline_feed refusing fresh (codes "GET")).0
      (http_pipeline_feed refusing fresh (codes "GET")).1.tolerated_error
      (http_pipeline_feed refusing fresh (codes "GET")).1.action
unfolding http_pipeline_feed
http_pipeline_feed-error_example = http_pipeline_feed-error refusing fresh (codes "GET") refl

-- A header block that has used up its limit.
abbrev full : Conn
full = record fresh { h1 = record request { headers_done = false; max_header_bytes = 60 } }
