-- ===== src/Settings/Loaded.antt =====
-- Which variables the service cannot start without.
use qdrant_database.Prelude.{◌≡◌, List, [], ◌∷◌, String, Text, All}
use qdrant_database.Exec.{ok}
use qdrant_database.Exec.Outcomes.{and_then-eq-ok}
use qdrant_database.Settings.{
  Environ, Settings, DatabaseSettings, QdrantSettings, database_settings, qdrant_settings,
  bge_settings, search_settings, settings,
}

abbrev pub required_variables : List String
required_variables =
    "DJANGO_SECRET_KEY" ∷ "POSTGRES_HOST" ∷ "POSTGRES_DB" ∷ "POSTGRES_USER" ∷ "POSTGRES_PASSWORD"
    ∷ "QDRANT_HOST" ∷ "QDRANT_API_KEY" ∷ "REDIS_URL" ∷ []

module _ (env : Environ) where
  abbrev pub IsGiven : String → Type 0
  IsGiven name = (t : Text) × (env.required name ≡ ok t)

  database-IsGiven :
      (d : DatabaseSettings)
      → database_settings env ≡ ok d
      → IsGiven "POSTGRES_HOST"
        × IsGiven "POSTGRES_DB"
        × IsGiven "POSTGRES_USER"
        × IsGiven "POSTGRES_PASSWORD"
  unfolding database_settings
  database-IsGiven d h =
      let (host, host_given, h₁) = and_then-eq-ok (env.required "POSTGRES_HOST") _ h in
      let (_, _, h₂) = and_then-eq-ok (env.int_or "POSTGRES_PORT" 5432) _ h₁ in
      let (name, name_given, h₃) = and_then-eq-ok (env.required "POSTGRES_DB") _ h₂ in
      let (user, user_given, h₄) = and_then-eq-ok (env.required "POSTGRES_USER") _ h₃ in
      let (word, word_given, _) = and_then-eq-ok (env.required "POSTGRES_PASSWORD") _ h₄ in
      ((host, host_given), (name, name_given), (user, user_given), (word, word_given))

  qdrant-IsGiven :
      (q : QdrantSettings)
      → qdrant_settings env ≡ ok q
      → IsGiven "QDRANT_HOST" × IsGiven "QDRANT_API_KEY"
  unfolding qdrant_settings
  qdrant-IsGiven q h =
      let (host, host_given, h₁) = and_then-eq-ok (env.required "QDRANT_HOST") _ h in
      let (_, _, h₂) = and_then-eq-ok (env.int_or "QDRANT_GRPC_PORT" 6334) _ h₁ in
      let (_, _, h₃) = and_then-eq-ok (env.int_or "QDRANT_HTTP_PORT" 6333) _ h₂ in
      let (_, _, h₄) = and_then-eq-ok (env.bool_or "QDRANT_PREFER_GRPC" _) _ h₃ in
      let (key, key_given, _) = and_then-eq-ok (env.required "QDRANT_API_KEY") _ h₄ in
      ((host, host_given), (key, key_given))

  -- The settings load only if each of the eight variables without a default is given.
  pub settings-All-IsGiven : (s : Settings) → settings env ≡ ok s → All IsGiven required_variables
  unfolding settings
  settings-All-IsGiven s h =
      let (secret, secret_given, h₁) = and_then-eq-ok (env.required "DJANGO_SECRET_KEY") _ h in
      let (_, _, h₂) = and_then-eq-ok (env.bool_or "DJANGO_DEBUG" _) _ h₁ in
      let (_, _, h₃) = and_then-eq-ok (env.list_or "DJANGO_ALLOWED_HOSTS" _) _ h₂ in
      let (_, _, h₄) = and_then-eq-ok (env.list_or "DJANGO_CSRF_TRUSTED_ORIGINS" _) _ h₃ in
      let (database, read, h₅) = and_then-eq-ok (database_settings env) _ h₄ in
      let (qdrant, made, h₆) = and_then-eq-ok (qdrant_settings env) _ h₅ in
      let (_, _, h₇) = and_then-eq-ok (bge_settings env) _ h₆ in
      let (_, _, h₈) = and_then-eq-ok (search_settings env) _ h₇ in
      let (broker, broker_given, _) = and_then-eq-ok (env.required "REDIS_URL") _ h₈ in
      let (host, name, user, word) = database-IsGiven database read in
      let (server, key) = qdrant-IsGiven qdrant made in
      (
        (secret, secret_given),
        (host, (name, (user, (word, (server, (key, ((broker, broker_given), tt))))))),
      )
