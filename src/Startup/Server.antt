-- ===== src/Startup/Server.antt =====
-- The routes of `startMetricsServer` in cmd/worker/main.go. What the mux answers on any other path is
-- net/http's, and a parameter.
use email_delivery_engine.Prelude.{ℕ, String, Option, none, some, List, str_eq, if◌then◌else◌}
use email_delivery_engine.Prelude.Text.{codes}
use email_delivery_engine.Metrics.{Registry}
use email_delivery_engine.Metrics.Page.{page}

-- The content type is `none` where the handler sets none.
pub record Response : Type 0 where
  pub status : ℕ
  pub content_type : Option String
  pub body : List ℕ

abbrev pub health : Response
health = record { status = 200; content_type = none; body = codes "{\"status\":\"ok\"}" }

abbrev pub metrics_page : Registry → Response
metrics_page r = record {
  status = 200;
  content_type = some "text/plain; version=0.0.4";
  body = page r;
}

unfoldable pub respond : Response → String → Registry → Response
unfolding page
respond other path r =
    if str_eq path "/metrics"
    then metrics_page r
    else if str_eq path "/health"
    then health
    else other
