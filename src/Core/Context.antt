-- ===== src/Core/Context.antt =====
-- The context variables of apps/core/middleware.py and the phase durations of apps/core/timing.py.
use qdrant_database.Prelude.{ℕ, Option, none, some, List, [], ◌∷◌, String, Text, if◌then◌else◌}
use package.text.Mathlib.Text.{◌==◌ as str_eq}

-- A float number of milliseconds stands as a number; only the subtraction is made here.
abbrev pub Phases : Type 0
Phases = List (String × ℕ)

-- The values of the five `ContextVar`s.
pub record RequestContext : Type 0 where
  pub request_id : Option Text
  pub tenant_id : Option Text
  pub bot_id : Option Text
  pub doc_id : Option Text
  pub phase_durations : Option Phases

abbrev keep_or : Option Text → Option Text → Option Text
keep_or none old = old
keep_or (some t) old = some t

unfoldable pub set_request_context :
    Option Text → Option Text → Option Text → RequestContext → RequestContext
set_request_context tenant_id bot_id doc_id c = record c {
  tenant_id = keep_or tenant_id c.tenant_id;
  bot_id = keep_or bot_id c.bot_id;
  doc_id = keep_or doc_id c.doc_id;
}

-- The fresh dict is in the variable and is returned.
unfoldable pub reset_phase_durations : RequestContext → RequestContext
reset_phase_durations c = record c { phase_durations = some [] }

unfoldable pub get_phase_durations : RequestContext → Phases
get_phase_durations c = elim c.phase_durations [ none ↦ [] | some d ↦ d ]

-- `d[phase] = ms`
unfoldable pub record_phase : String → ℕ → Phases → Phases
record_phase phase ms [] = (phase, ms) ∷ []
record_phase phase ms ((p, n) ∷ d) =
    if str_eq p phase then (p, ms) ∷ d else (p, n) ∷ record_phase phase ms d
