-- ===== src/Ingestion/Shelf/Refines.antt =====
-- The pipelines on a bot's collection implement the shelf.
use qdrant_database.Prelude.{
  ◌≡◌, refl, ap, sym, subst, ◌∙◌, true, false, Option, some, List, [], ◌∷◌, ◌++◌, ℕ, Text, text_eq,
  text_eq_sound, keep, keep_comm, Bool-cases, inl, inr, arith, if◌then◌else◌, not,
}
use qdrant_database.Exec.{Outcome, ok}
use qdrant_database.Exec.Outcomes.{bind-eq-ok, ok-injective}
use qdrant_database.Naming.{collection_name}
use qdrant_database.Ingestion.World.{World, Env}
use qdrant_database.Ingestion.Pipeline.Hashing.{incoming_hash}
use qdrant_database.Ingestion.Pipeline.Points.Distinct.{IsApart}
use qdrant_database.Ingestion.Pipeline.Upload.{
  UploadArgs, UploadStatus, no_change, replaced, created, upload,
}
use qdrant_database.Ingestion.Pipeline.Upload.Points.{flat, IsBuilt, Effect}
use qdrant_database.Ingestion.Pipeline.Upload.Effects.{upload_stores_points}
use qdrant_database.Ingestion.Pipeline.Delete.{delete_document}
use qdrant_database.Ingestion.Pipeline.Delete.Points.{Removed, delete_document-Removed}
use qdrant_database.Ingestion.Shelf.{
  Shelf, Event, uploaded, removed, Op, put, remove, args, remove_document, built, upload_on,
  event_on, replay, run_op, run_ops,
}
use qdrant_database.Qdrant.Client.{Point, Value, lookup}
use qdrant_database.Qdrant.Client
use qdrant_database.Qdrant.Collection.Laws.{of_doc, not_of_doc, is_text, with_new_id, QdrantLaws}

-- The points of each document among those of a collection.
abbrev pub shelf_of : List Point → Shelf
shelf_of ps d = keep (of_doc d) ps

-- A point is of one document at most.
other_doc :
    (d e : Text) (p : Point) → text_eq e d ≡ false → of_doc e p ≡ true → not_of_doc d p ≡ true
other_doc d e p n h = go (lookup "doc_id" p.payload) h
  where
    go : (v : Option Value) → is_text e v ≡ true → not (is_text d v) ≡ true
    go (some (Client.text v)) k = let own : v ≡ e = text_eq_sound v e k in rw (own, n) refl
    go v k = ground arith

-- The points of another document are among those that are not of `d`.
keep_other :
    (d e : Text) (ps : List Point)
    → text_eq e d ≡ false
    → keep (of_doc e) ps ≡ keep (of_doc e) (keep (not_of_doc d) ps)
keep_other d e [] n = refl
keep_other d e (p ∷ ps) n = elim (Bool-cases (of_doc e p)) [
  | inl ours ↦
      rw (ours, other_doc d e p n ours, ours)
        (ap (λ (qs : List Point). p ∷ qs) (keep_other d e ps n))
  | inr theirs ↦ elim (Bool-cases (not_of_doc d p)) [
    | inl left ↦ rw (theirs, left, theirs) (keep_other d e ps n)
    | inr out ↦ rw (theirs, out) (keep_other d e ps n)
  ]
]

module _ (d e : Text) (old now new : List Point) (n : text_eq e d ≡ false)
    (rest : keep (not_of_doc d) now ≡ keep (with_new_id new) (keep (not_of_doc d) old)) where
  other_after : keep (of_doc e) now ≡ keep (with_new_id new) (keep (of_doc e) old)
  other_after =
      keep_other d e now n
      ∙ ap (keep (of_doc e)) rest
      ∙ keep_comm (of_doc e) (with_new_id new) (keep (not_of_doc d) old)
      ∙ ap (keep (with_new_id new)) (sym (keep_other d e old n))

module _ {D L Q : Type 0} (env : Env D L Q) (qd : QdrantLaws env.client) where
  built_is :
      (a : UploadArgs) (ps : List Point)
      → IsBuilt env a (incoming_hash env.sha256 a.body) ps
      → built env a ≡ ps
  unfolding built
  built_is a ps (e, embedded, made) = rw (embedded, made) refl

  upload-shelf :
      (a : UploadArgs) (old now : List Point) (status : UploadStatus) (n : ℕ)
      → Effect env a (incoming_hash env.sha256 a.body) old status n now
      → (e : Text) → shelf_of now e ≡ upload_on env a status (shelf_of old) e
  unfolding upload_on
  upload-shelf a old now no_change n h e = ap (λ (ps : List Point). shelf_of ps e) h
  upload-shelf a old now replaced n (ps, made, count, own, rest) e =
      rw (built_is a ps made) (elim (Bool-cases (text_eq e a.doc_id)) [
        | inl same ↦
            rw same (ap (λ (d : Text). keep (of_doc d) now) (text_eq_sound e a.doc_id same) ∙ own)
        | inr other ↦ rw other (other_after a.doc_id e old now ps other rest)
      ])
  upload-shelf a old now created n (ps, made, count, own, rest) e =
      rw (built_is a ps made) (elim (Bool-cases (text_eq e a.doc_id)) [
        | inl same ↦
            let is_d = text_eq_sound e a.doc_id same in
            rw same (
              ap (λ (d : Text). keep (of_doc d) now) is_d
              ∙ own
              ∙ ap (λ (d : Text). keep (with_new_id ps) (keep (of_doc d) old) ++ ps) (sym is_d))
        | inr other ↦ rw other (other_after a.doc_id e old now ps other rest)
      ])

  delete-shelf :
      (d : Text) (old now : List Point)
      → Removed d old now
      → (e : Text) → shelf_of now e ≡ remove_document d (shelf_of old) e
  delete-shelf d old now (own, rest) e = elim (Bool-cases (text_eq e d)) [
    | inl same ↦ rw same (ap (λ (f : Text). keep (of_doc f) now) (text_eq_sound e d same) ∙ own)
    | inr other ↦
        rw other
          (keep_other d e now other ∙ ap (keep (of_doc e)) rest ∙ sym (keep_other d e old other))
  ]

  -- Equal shelves stay equal.
  event-cong :
      (v : Event) (s t : Shelf)
      → ((e : Text) → s e ≡ t e)
      → (e : Text) → event_on env v s e ≡ event_on env v t e
  unfolding event_on upload_on
  event-cong (uploaded a no_change) s t h e = h e
  event-cong (uploaded a replaced) s t h e =
      ap (λ x. if text_eq e a.doc_id then built env a else keep (with_new_id (built env a)) x) (h e)
  event-cong (uploaded a created) s t h e =
      ap
        (λ x.
          if text_eq e a.doc_id
          then keep (with_new_id (built env a)) x ++ built env a
          else keep (with_new_id (built env a)) x)
        (h e)
  event-cong (removed d) s t h e = ap (λ x. if text_eq e d then [] else x) (h e)

  replay-cong :
      (vs : List Event) (s t : Shelf)
      → ((e : Text) → s e ≡ t e)
      → (e : Text) → replay env vs s e ≡ replay env vs t e
  unfolding replay
  replay-cong [] s t h e = h e
  replay-cong (v ∷ vs) s t h e = replay-cong vs _ _ (event-cong v s t h) e

  -- `uuid5` keeps apart the chunk ids of each body that is put.
  abbrev pub AllApart : Text → Text → List Op → Type 0
  AllApart t b [] = Unit
  AllApart t b (put d body ∷ ops) =
      IsApart env.uuid5 d (flat env (args t b d body)) × AllApart t b ops
  AllApart t b (remove d ∷ ops) = AllApart t b ops

  module _ (t b name : Text) (named : collection_name t b ≡ ok name) where
    abbrev pub shelf : World D L Q → Shelf
    shelf w = shelf_of (qd.points w.qdrant name)

    op-shelf :
        (op : Op) (w v : World D L Q) (event : Event)
        → AllApart t b (op ∷ [])
        → run_op env t b op w ≡ (ok event, v)
        → (e : Text) → shelf v e ≡ event_on env event (shelf w) e
    unfolding run_op event_on
    op-shelf (put d body) w v event apart h e =
        let a = args t b d body in
        let (r, u, first, last) = bind-eq-ok (upload env a) _ w h in
        let same : u ≡ v = ap (λ (x : Outcome Event × World D L Q). x.1) last in
        let is_event : uploaded a r.status ≡ event =
          ok-injective (ap (λ (x : Outcome Event × World D L Q). x.0) last) in
        rw (← same, ← is_event)
          (upload-shelf a _ _ r.status r.chunks_created
            (upload_stores_points env qd a name w u r named apart.0 first) e)
    op-shelf (remove d) w v event apart h e =
        let (r, u, first, last) = bind-eq-ok (delete_document env t b d) _ w h in
        let same : u ≡ v = ap (λ (x : Outcome Event × World D L Q). x.1) last in
        let is_event : removed d ≡ event =
          ok-injective (ap (λ (x : Outcome Event × World D L Q). x.0) last) in
        rw (← same, ← is_event)
          (delete-shelf d (qd.points w.qdrant name) (qd.points u.qdrant name)
            (delete_document-Removed env qd t b d name w u r named first) e)

    apart-cons :
        (op : Op) (ops : List Op)
        → AllApart t b (op ∷ ops)
        → AllApart t b (op ∷ []) × AllApart t b ops
    apart-cons (put d body) ops h = ((h.0, tt), h.1)
    apart-cons (remove d) ops h = (tt, h)

    -- After a sequence of uploads and deletions of one bot that all return, the points of every
    -- document in the bot's collection are those that the shelf gives when the answers are replayed
    -- on the documents from before: a replacement leaves exactly the points of the body, a creation
    -- adds them, a deletion leaves none, `no_change` leaves all as it is, and a point elsewhere with
    -- the id of a new one is gone. (Where UUIDv5 tells the chunk ids of each body apart.)
    pub run_ops_refines :
        (ops : List Op) (w w' : World D L Q) (events : List Event)
        → AllApart t b ops
        → run_ops env t b ops w ≡ (ok events, w')
        → (d : Text) → shelf w' d ≡ replay env events (shelf w) d
    unfolding run_ops replay
    run_ops_refines [] w w' events apart h d =
        let none : [] ≡ events =
          ok-injective (ap (λ (x : Outcome (List Event) × World D L Q). x.0) h) in
        let same : w ≡ w' = ap (λ (x : Outcome (List Event) × World D L Q). x.1) h in
        rw (← none, ← same) refl
    run_ops_refines (op ∷ ops) w w' events apart h d =
        let (mine, others) = apart-cons op ops apart in
        let (event, u, first, more) = bind-eq-ok (run_op env t b op) _ w h in
        let (rest, v, second, last) = bind-eq-ok (run_ops env t b ops) _ u more in
        let same : v ≡ w' = ap (λ (x : Outcome (List Event) × World D L Q). x.1) last in
        let all : event ∷ rest ≡ events =
          ok-injective (ap (λ (x : Outcome (List Event) × World D L Q). x.0) last) in
        subst (λ (x : World D L Q). shelf x d ≡ replay env events (shelf w) d) same
          (subst (λ (es : List Event). shelf v d ≡ replay env es (shelf w) d) all
            (run_ops_refines ops u v rest others second d
              ∙ replay-cong rest (shelf u) (event_on env event (shelf w))
                  (op-shelf op w u event mine first) d))
