-- ===== src/Core/Logging.antt =====
-- apps/core/logging.py: the processor that adds the request context to every log event, and the
-- configuration. structlog and the standard `logging` carry it out and are not modelled.
pub mod Enriched
use package.text.Mathlib.Text.{◌==◌ as str_eq}
use qdrant_database.Prelude.{
  Bool, true, false, Option, none, some, List, [], ◌∷◌, String, Text, codes, if◌then◌else◌,
}
use qdrant_database.Core.Context.{RequestContext}

-- An event's fields: a dict. A value that is not a text stands as `foreign`.
pub data FieldValue : Type 0 where
  value : Text → FieldValue
  foreign : FieldValue

abbrev pub EventDict : Type 0
EventDict = List (String × FieldValue)

-- `event_dict.setdefault(key, val)`
unfoldable pub setdefault : String → FieldValue → EventDict → EventDict
setdefault key val [] = (key, val) ∷ []
setdefault key val ((k, v) ∷ d) = if str_eq k key then (k, v) ∷ d else (k, v) ∷ setdefault key val d

-- One round of the loop: `val = var.get()`.
unfoldable pub enrich : String → Option Text → EventDict → EventDict
enrich key none d = d
enrich key (some val) d = setdefault key (value val) d

unfoldable pub request_context_processor : RequestContext → EventDict → EventDict
request_context_processor c d =
    enrich "doc_id" c.doc_id (
      enrich "bot_id" c.bot_id
        (enrich "tenant_id" c.tenant_id (enrich "request_id" c.request_id d)))

pub data Processor : Type 0 where
  merge_contextvars filter_by_level add_log_level extra_adder add_logger_name time_stamper :
      Processor
  positional_arguments_formatter stack_info_renderer format_exc_info unicode_decoder : Processor
  request_context wrap_for_formatter : Processor

pub data Renderer : Type 0 where
  console_renderer json_renderer : Renderer

abbrev pub shared_processors : List Processor
shared_processors =
    Processor.merge_contextvars ∷ Processor.add_log_level ∷ Processor.extra_adder
    ∷ Processor.add_logger_name ∷ Processor.time_stamper ∷ Processor.stack_info_renderer
    ∷ Processor.format_exc_info ∷ Processor.request_context ∷ []

unfoldable pub select_renderer : Bool → Renderer
select_renderer true = Renderer.console_renderer
select_renderer false = Renderer.json_renderer

pub record LoggerConfig : Type 0 where
  pub name : String
  pub level : Text
  pub propagate : Bool

-- What `configure_logging` leaves: structlog's processors and level, the handler's formatter, the
-- loggers of `dictConfig` (all with that handler), and the bound context variables.
pub record LoggingState : Type 0 where
  pub processors : List Processor
  pub wrapper_level : Text
  pub renderer : Renderer
  pub foreign_pre_chain : List Processor
  pub loggers : List LoggerConfig
  pub contextvars : List (String × String)

abbrev logger_at : String → Text → LoggerConfig
logger_at name level = record { name = name; level = level; propagate = false }

-- `upper` is `str.upper`; nothing of the state before is left.
unfoldable pub configure_logging : (Text → Text) → Bool → Text → LoggingState
unfolding select_renderer
configure_logging upper debug log_level = record {
  processors =
      Processor.merge_contextvars ∷ Processor.filter_by_level ∷ Processor.add_log_level
      ∷ Processor.extra_adder ∷ Processor.add_logger_name ∷ Processor.time_stamper
      ∷ Processor.positional_arguments_formatter ∷ Processor.stack_info_renderer
      ∷ Processor.format_exc_info ∷ Processor.unicode_decoder ∷ Processor.request_context
      ∷ Processor.wrap_for_formatter ∷ [];
  wrapper_level = upper log_level;
  renderer = select_renderer debug;
  foreign_pre_chain = shared_processors;
  loggers =
      logger_at "" log_level
      ∷ logger_at "django" log_level
      ∷ logger_at "django.request" (codes "WARNING")
      ∷ logger_at "django.server" (codes "INFO")
      ∷ logger_at "django.db.backends" (codes "WARNING")
      ∷ logger_at "gunicorn.error" (codes "INFO")
      ∷ logger_at "gunicorn.access" (codes "INFO")
      ∷ [];
  contextvars = ("service", "qdrant_rag") ∷ ("version", "0.1.0-dev") ∷ [];
}
