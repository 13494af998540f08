-- ===== src/Names/Snippets.antt =====
-- The snippet files of crates/onv-agent-lib/src/names.rs: a name that was written is recognised.
use mathlib.Core.List.{reverse, reverse-append, reverse-reverse}
use mathlib.Core.Bool.{true≢false}
use omnuv_provider.Base.{
  ==_iff, Bool-cases, sym, ◌∙◌, ℕ, ◌≡◌, refl, ap, inl, inr, Bool, true, false, ◌||◌, [], ◌∷◌, ◌++◌,
  some, none, arith, ◌==◌, and-eq-true, if◌then◌else◌, is_empty,
}
use omnuv_provider.Base.Text.{
  is_hex_digit, Text, codes, strip_prefix, strip_prefix-append, strip_suffix,
}
use omnuv_provider.Names.{
  SnippetKind, of_instance, of_network, of_meta, of_worker, of_worker_legacy, snippet_instance,
  snippet_network, snippet_meta, snippet_worker, snippet_worker_legacy, snippet_owner,
  owner_of_body, Kinds, kinds, yaml, uuidish,
}

-- The name a machine's file has, by its kind.
abbrev pub named : SnippetKind → Text → Text
named of_instance = snippet_instance
named of_network = snippet_network
named of_meta = snippet_meta
named of_worker = snippet_worker
named of_worker_legacy = snippet_worker_legacy

strip_suffix-append : (s t : Text) → strip_suffix t (s ++ t) ≡ some s
unfolding strip_suffix
strip_suffix-append s t = ground (
  arith,
  ap (strip_prefix (reverse t)) (reverse-append s t),
  strip_prefix-append (reverse t) (reverse s),
  reverse-reverse s,
)

snippet_owner-body :
    (body : Text) → snippet_owner (codes "onv-" ++ (body ++ yaml)) ≡ owner_of_body kinds body
unfolding snippet_owner
snippet_owner-body body = rw (strip_suffix-append body yaml)

kinded :
    (kind : SnippetKind) (p id : Text)
    → is_empty id ≡ false
    → owner_of_body kinds (p ++ id) ≡ (if is_empty id then none else some (kind, id))
    → snippet_owner (codes "onv-" ++ ((p ++ id) ++ yaml)) ≡ some (kind, id)
kinded kind p id e h = rw (snippet_owner-body (p ++ id)) (h ∙ rw e)

abbrev lettered : ℕ → Bool
lettered c = is_hex_digit c || (c == b'-')

uuidish-head : (c : ℕ) (s : Text) → uuidish (c ∷ s) ≡ true → lettered c ≡ true
unfolding uuidish
uuidish-head c s h = (and-eq-true _ _ (and-eq-true _ _ (and-eq-true _ _ h).0).1).0

unlike : (p c : ℕ) → lettered p ≡ false → lettered c ≡ true → (p == c) ≡ false
unlike p c out h = elim (Bool-cases (p == c)) [
  | inl e ↦ absurd (true≢false (sym h ∙ ap lettered (sym ((==_iff p c).0 e)) ∙ out))
  | inr ne ↦ ne
]

skipped :
    (p : ℕ) (ps : Text) (k : SnippetKind) (rest : Kinds) (c : ℕ) (s : Text)
    → lettered p ≡ false
    → lettered c ≡ true
    → owner_of_body ((p ∷ ps, k) ∷ rest) (c ∷ s) ≡ owner_of_body rest (c ∷ s)
unfolding owner_of_body strip_prefix
skipped p ps k rest c s out h = rw (unlike p c out h, owner_of_body)

-- No kind's word begins a name of hexadecimal digits and dashes.
unkinded_at :
    (c : ℕ) (s : Text) → lettered c ≡ true → owner_of_body kinds (c ∷ s) ≡ owner_of_body [] (c ∷ s)
unkinded_at c s h =
    skipped b'i' _ of_instance _ c s refl h
    ∙ skipped b'n' _ of_network _ c s refl h
    ∙ skipped b'm' _ of_meta _ c s refl h
    ∙ skipped b'w' _ of_worker _ c s refl h

unkinded :
    (id : Text)
    → uuidish id ≡ true
    → is_empty id ≡ false
    → owner_of_body kinds id ≡ some (of_worker_legacy, id)
unkinded [] h e = cc
unkinded (c ∷ s) h e = unkinded_at c s (uuidish-head c s h) ∙ unfold owner_of_body in rw h refl

-- A file written for a kind and an id that is not empty is recognised as that kind's, for that id;
-- under the older name of a worker's file, when the id has the form of a uuid.
pub snippet_owner-named :
    (kind : SnippetKind) (id : Text)
    → (kind ≡ of_worker_legacy → uuidish id ≡ true)
    → is_empty id ≡ false
    → snippet_owner (named kind id) ≡ some (kind, id)
unfolding snippet_instance snippet_network snippet_meta snippet_worker snippet_worker_legacy
snippet_owner-named of_instance id h e =
    kinded of_instance (codes "instance-") id e (unfold owner_of_body strip_prefix in refl)
snippet_owner-named of_network id h e =
    kinded of_network (codes "net-") id e (unfold owner_of_body strip_prefix in refl)
snippet_owner-named of_meta id h e =
    kinded of_meta (codes "meta-") id e (unfold owner_of_body strip_prefix in refl)
snippet_owner-named of_worker id h e =
    kinded of_worker (codes "worker-") id e (unfold owner_of_body strip_prefix in refl)
snippet_owner-named of_worker_legacy id h e = rw (snippet_owner-body id) (unkinded id (h refl) e)
