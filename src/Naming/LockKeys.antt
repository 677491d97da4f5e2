-- ===== src/Naming/LockKeys.antt =====
-- The lock key: what is hashed determines the document, and the key is a pair of 32-bit integers.
use qdrant_database.Prelude.{
  ℕ, ◌≤◌, ◌<◌, ◌≡◌, refl, ◌≢◌, List, [], ◌∷◌, ◌++◌, arith, Text, codes, encode, length, take, All,
}
use qdrant_database.Exec.{ok}
use qdrant_database.Tenants.{validate_slug, is_slug_char}
use qdrant_database.Tenants.Slugs.{IsSlugChar, fullmatch_chars, validate-fullmatch}
use qdrant_database.Naming.{ℤ, pos, negsuc, lock_text, unpack_int, unpack_keys, advisory_lock_key}

not-bar : (c : ℕ) → IsSlugChar c → c ≢ b'|'
unfolding is_slug_char
not-bar c h = ground arith

bar_unique :
    (s t b d : Text)
    → All IsSlugChar s
    → All IsSlugChar t
    → s ++ (codes "|" ++ b) ≡ t ++ (codes "|" ++ d)
    → (s ≡ t) × (b ≡ d)
bar_unique [] [] b d hs ht e = (refl, cc)
bar_unique [] (y ∷ t) b d hs ht e = absurd (ground (arith, not-bar y ht.0))
bar_unique (x ∷ s) [] b d hs ht e = absurd (ground (arith, not-bar x hs.0))
bar_unique (x ∷ s) (y ∷ t) b d hs ht e = ground (arith, bar_unique s t b d hs.1 ht.1)

valid_chars : (s : Text) → validate_slug s ≡ ok tt → All IsSlugChar s
valid_chars s h = fullmatch_chars s (validate-fullmatch s h)

-- For valid slugs, the text that is hashed for a lock determines tenant, bot and document.
pub lock_text_injective :
    (t u b c d e : Text)
    → validate_slug t ≡ ok tt
    → validate_slug u ≡ ok tt
    → validate_slug b ≡ ok tt
    → validate_slug c ≡ ok tt
    → lock_text t b d ≡ lock_text u c e
    → (t ≡ u) × (b ≡ c) × (d ≡ e)
lock_text_injective t u b c d e ht hu hb hc h =
    let (p, q) = bar_unique t u _ _ (valid_chars t ht) (valid_chars u hu) h in
    let (r, s) = bar_unique b c d e (valid_chars b hb) (valid_chars c hc) q in (p, r, s)

-- -2^31 ≤ k < 2^31
abbrev pub IsInt32 : ℤ → Type 0
IsInt32 (pos n) = n < 2147483648
IsInt32 (negsuc n) = n < 2147483648

abbrev pub IsByte : ℕ → Type 0
IsByte b = b < 256

unpack_int-IsInt32 :
    (a b c d : ℕ) → IsByte a → IsByte b → IsByte c → IsByte d → IsInt32 (unpack_int a b c d)
unfolding unpack_int
unpack_int-IsInt32 a b c d ha hb hc hd = ground arith

-- Different bytes give different integers.
unpack_int_inj :
    (a b c d a' b' c' d' : ℕ)
    → IsByte a
    → IsByte b
    → IsByte c
    → IsByte d
    → IsByte a'
    → IsByte b'
    → IsByte c'
    → IsByte d'
    → unpack_int a b c d ≡ unpack_int a' b' c' d'
    → (a ≡ a') × (b ≡ b') × (c ≡ c') × (d ≡ d')
unfolding unpack_int
unpack_int_inj a b c d a' b' c' d' ha hb hc hd ha' hb' hc' hd' e = ground arith

-- What `hashlib.sha256(…).digest()` promises, as far as the code needs it.
pub record IsDigest (digest : List ℕ) : Type 0 where
  pub long_enough : 8 ≤ length digest
  pub bytes : All IsByte digest

unpack_keys-IsInt32 :
    (digest : List ℕ)
    → 8 ≤ length digest
    → All IsByte digest
    → (k : ℤ × ℤ) × (unpack_keys digest ≡ ok k) × IsInt32 k.0 × IsInt32 k.1
unfolding unpack_keys
unpack_keys-IsInt32 (a ∷ b ∷ c ∷ d ∷ e ∷ f ∷ g ∷ h ∷ rest) long
      (pa, (pb, (pc, (pd, (pe, (pf, (pg, (ph, _)))))))) =
    (
      (unpack_int a b c d, unpack_int e f g h),
      refl,
      unpack_int-IsInt32 a b c d pa pb pc pd,
      unpack_int-IsInt32 e f g h pe pf pg ph,
    )
unpack_keys-IsInt32 _ long h = absurd (omega arith)

-- For valid slugs and a document id that is not empty there is a key, and both halves of it are
-- 32-bit integers, as `pg_try_advisory_lock(int, int)` wants.
pub advisory_lock_key-IsInt32 :
    (sha256 : List ℕ → List ℕ) (t b d : Text)
    → ((m : List ℕ) → IsDigest (sha256 m))
    → validate_slug t ≡ ok tt
    → validate_slug b ≡ ok tt
    → d ≢ []
    → (k : ℤ × ℤ) × (advisory_lock_key sha256 t b d ≡ ok k) × IsInt32 k.0 × IsInt32 k.1
unfolding advisory_lock_key
advisory_lock_key-IsInt32 sha256 t b [] digest ht hb hd = absurd (hd refl)
advisory_lock_key-IsInt32 sha256 t b (c ∷ d) digest ht hb hd =
    let m = encode (lock_text t b (c ∷ d)) in
    rw (ht, hb) (unpack_keys-IsInt32 (sha256 m) (digest m).long_enough (digest m).bytes)

unpack_keys-inj :
    (x y : List ℕ) (k : ℤ × ℤ)
    → All IsByte x
    → All IsByte y
    → unpack_keys x ≡ ok k
    → unpack_keys y ≡ ok k
    → take 8 x ≡ take 8 y
unfolding unpack_keys
unpack_keys-inj (a ∷ b ∷ c ∷ d ∷ e ∷ f ∷ g ∷ h ∷ r) (a' ∷ b' ∷ c' ∷ d' ∷ e' ∷ f' ∷ g' ∷ h' ∷ r') k
      hx hy p q =
    let (pa, (pb, (pc, (pd, (pe, (pf, (pg, (ph, _)))))))) = hx in
    let (qa, (qb, (qc, (qd, (qe, (qf, (qg, (qh, _)))))))) = hy in
    let (ea, eb, ec, ed) = unpack_int_inj a b c d a' b' c' d' pa pb pc pd qa qb qc qd (cc) in
    let (ee, ef, eg, eh) = unpack_int_inj e f g h e' f' g' h' pe pf pg ph qe qf qg qh (cc) in
    cc (ea, eb, ec, ed, ee, ef, eg, eh)
unpack_keys-inj _ _ k hx hy p q = cc

key_of_digest :
    (sha256 : List ℕ → List ℕ) (t b d : Text) (k : ℤ × ℤ)
    → advisory_lock_key sha256 t b d ≡ ok k
    → unpack_keys (sha256 (encode (lock_text t b d))) ≡ ok k
unfolding advisory_lock_key
key_of_digest sha256 t b d k h = ground arith

-- Two calls that return one key hashed texts whose digests agree in their first eight bytes.
pub same_key_digests :
    (sha256 : List ℕ → List ℕ) (t b d u c e : Text) (k : ℤ × ℤ)
    → ((m : List ℕ) → IsDigest (sha256 m))
    → advisory_lock_key sha256 t b d ≡ ok k
    → advisory_lock_key sha256 u c e ≡ ok k
    → take 8 (sha256 (encode (lock_text t b d))) ≡ take 8 (sha256 (encode (lock_text u c e)))
same_key_digests sha256 t b d u c e k digest h h' =
    unpack_keys-inj _ _ k (digest (encode (lock_text t b d))).bytes
      (digest (encode (lock_text u c e))).bytes (key_of_digest sha256 t b d k h)
      (key_of_digest sha256 u c e k h')
