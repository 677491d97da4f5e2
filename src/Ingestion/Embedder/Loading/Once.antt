-- ===== src/Ingestion/Embedder/Loading/Once.antt =====
-- The model and the tokenizer are constructed until they are there, and then no more.
use qdrant_database.Prelude.{
  ℕ, suc, ◌≡◌, refl, ap, sym, subst, ◌∙◌, Option, none, some, List, [], ◌∷◌,
}
use qdrant_database.Exec.{Outcome, ok, raised}
use qdrant_database.Exec.Outcomes.{bind-eq-ok, ok-injective}
use qdrant_database.Exec.Keeps.{Keeps-bind, Keeps-pure}
use qdrant_database.Ingestion.Embedder.Loading.{
  EmbedderState, Constructor, model_constructed, cached_model, get_model, tokenizer_constructed,
  cached_tokenizer, get_tokenizer, warmup,
}

-- What the process does with the embedder: the two accessors, and `warmup`.
pub data Use : Type 0 where
  model_used tokenizer_used warmed : Use

module _ {M T : Type 0} (load_model : Constructor M) (load_tokenizer : Constructor T) where
  abbrev pub State : Type 0
  State = EmbedderState M T

  abbrev pub use_once : Use → State → State
  use_once model_used s = (get_model load_model s).1
  use_once tokenizer_used s = (get_tokenizer load_tokenizer s).1
  use_once warmed s = (warmup load_model load_tokenizer s).1

  abbrev pub uses : List Use → State → State
  uses [] s = s
  uses (u ∷ us) s = uses us (use_once u s)

  -- The gauge and the cache by the outcomes of the constructions so far: a cached model is what the
  -- last construction gave, and the gauge says whether there is one.
  abbrev pub ModelIs : Option M → ℕ → ℕ → Type 0
  ModelIs none n gauge = gauge ≡ 0
  ModelIs (some m) n gauge = (gauge ≡ 1) × (k : ℕ) × (n ≡ suc k) × (load_model k ≡ ok m)

  abbrev pub IsSound : State → Type 0
  IsSound s = ModelIs s.model s.model_constructions s.embedder_loaded

  constructed-IsSound :
      (s : State) (r : Outcome M)
      → load_model s.model_constructions ≡ r
      → IsSound s
      → s.model ≡ none
      → IsSound (model_constructed {M = M} {T = T} r s).1
  unfolding model_constructed
  constructed-IsSound s (raised e) h sound empty = rw empty (rw empty at sound)
  constructed-IsSound s (ok m) h sound empty = (refl, s.model_constructions, refl, h)

  get_model-IsSound : (s : State) → IsSound s → IsSound (get_model load_model s).1
  unfolding get_model
  get_model-IsSound s sound = go s.model refl
    where
      go : (o : Option M) → s.model ≡ o → IsSound (cached_model load_model o s).1
      go (some m) e = sound
      go none e = constructed-IsSound s _ refl sound e

  get_tokenizer-IsSound : (s : State) → IsSound s → IsSound (get_tokenizer load_tokenizer s).1
  unfolding get_tokenizer
  get_tokenizer-IsSound s sound = go s.tokenizer
    where
      built : (r : Outcome T) → IsSound (tokenizer_constructed {M = M} r s).1
      built (raised e) = sound
      built (ok t) = sound

      go : (o : Option T) → IsSound (cached_tokenizer load_tokenizer o s).1
      go (some t) = sound
      go none = built (load_tokenizer s.tokenizer_constructions)

  warmup-IsSound : (s : State) → IsSound s → IsSound (warmup load_model load_tokenizer s).1
  unfolding warmup
  warmup-IsSound s sound =
      (Keeps-bind (get_model load_model) _ (record { at = get_model-IsSound })
          (λ m.
            Keeps-bind (get_tokenizer load_tokenizer) _ (record { at = get_tokenizer-IsSound })
              (λ t. Keeps-pure tt))).at
        s sound

  -- After any uses of a fresh process, in any order and whether or not constructions raised, the
  -- cached model is the one that the last construction gave, and the gauge `embedder_loaded` is 1 if
  -- there is one and 0 if not.
  pub uses-IsSound : (us : List Use) (s : State) → IsSound s → IsSound (uses us s)
  uses-IsSound [] s h = h
  uses-IsSound (model_used ∷ us) s h = uses-IsSound us _ (get_model-IsSound s h)
  uses-IsSound (tokenizer_used ∷ us) s h = uses-IsSound us _ (get_tokenizer-IsSound s h)
  uses-IsSound (warmed ∷ us) s h = uses-IsSound us _ (warmup-IsSound s h)

  abbrev IsFull : M → T → State → Type 0
  IsFull m t s = (s.model ≡ some m) × (s.tokenizer ≡ some t)

  full_stays : (m : M) (t : T) (u : Use) (s : State) → IsFull m t s → use_once u s ≡ s
  unfolding get_model get_tokenizer warmup
  full_stays m t model_used s (here, there) = rw here refl
  full_stays m t tokenizer_used s (here, there) = rw there refl
  full_stays m t warmed s (here, there) = rw (here, there) refl

  model_cached : (s u : State) (m : M) → get_model load_model s ≡ (ok m, u) → u.model ≡ some m
  unfolding get_model
  model_cached s u m h = go s.model refl h
    where
      built : (r : Outcome M) → model_constructed {M = M} {T = T} r s ≡ (ok m, u) → u.model ≡ some m
      built (ok n) e =
          ap (λ (x : Outcome M × State). x.1.model) (sym e)
          ∙ ap some (ok-injective (ap (λ (x : Outcome M × State). x.0) e))
      built (raised x) e = cc (ap (λ (x : Outcome M × State). x.0) e)

      go : (o : Option M) → s.model ≡ o → cached_model load_model o s ≡ (ok m, u) → u.model ≡ some m
      go (some n) here e =
          ap (λ (x : Outcome M × State). x.1.model) (sym e)
          ∙ here
          ∙ ap some (ok-injective (ap (λ (x : Outcome M × State). x.0) e))
      go none empty e = built (load_model s.model_constructions) e

  tokenizer_cached :
      (s u : State) (t : T)
      → get_tokenizer load_tokenizer s ≡ (ok t, u)
      → (u.model ≡ s.model) × (u.tokenizer ≡ some t)
  unfolding get_tokenizer
  tokenizer_cached s u t h = go s.tokenizer refl h
    where
      End : Outcome T × State → Type 0
      End x = (x.1.model ≡ s.model) × (x.1.tokenizer ≡ s.tokenizer)

      built :
          (r : Outcome T)
          → tokenizer_constructed {M = M} r s ≡ (ok t, u)
          → (u.model ≡ s.model) × (u.tokenizer ≡ some t)
      built (ok n) e = (
        ap (λ (x : Outcome T × State). x.1.model) (sym e),
        ap (λ (x : Outcome T × State). x.1.tokenizer) (sym e)
            ∙ ap some (ok-injective (ap (λ (x : Outcome T × State). x.0) e)),
      )
      built (raised x) e = cc (ap (λ (x : Outcome T × State). x.0) e)

      go :
          (o : Option T)
          → s.tokenizer ≡ o
          → cached_tokenizer load_tokenizer o s ≡ (ok t, u)
          → (u.model ≡ s.model) × (u.tokenizer ≡ some t)
      go (some n) here e = (
        ap (λ (x : Outcome T × State). x.1.model) (sym e),
        ap (λ (x : Outcome T × State). x.1.tokenizer) (sym e)
            ∙ here
            ∙ ap some (ok-injective (ap (λ (x : Outcome T × State). x.0) e)),
      )
      go none empty e = built (load_tokenizer s.tokenizer_constructions) e

  warm-IsFull :
      (s u : State)
      → warmup load_model load_tokenizer s ≡ (ok tt, u)
      → (m : M) × (t : T) × IsFull m t u
  unfolding warmup
  warm-IsFull s u h =
      let (m, v, first, rest) = bind-eq-ok (get_model load_model) _ s h in
      let (t, w, second, last) = bind-eq-ok (get_tokenizer load_tokenizer) _ v rest in
      let (same, there) = tokenizer_cached v w t second in
      let end : w ≡ u = ap (λ (x : Outcome (Unit {0}) × State). x.1) last in
      (m, t, subst (λ (x : State). IsFull m t x) end (same ∙ model_cached s v m first, there))

  -- Once a warmup has returned, nothing that uses the embedder constructs a model or a tokenizer any
  -- more, and the caches and the gauge stay as they are.
  pub warmed_for_good :
      (s u : State) (us : List Use)
      → warmup load_model load_tokenizer s ≡ (ok tt, u)
      → uses us u ≡ u
  warmed_for_good s u us h = let (m, t, full) = warm-IsFull s u h in go m t us u full
    where
      go : (m : M) (t : T) (vs : List Use) (v : State) → IsFull m t v → uses vs v ≡ v
      go m t [] v full = refl
      go m t (w ∷ vs) v full =
          let same = full_stays m t w v full in ap (uses vs) same ∙ go m t vs v full
