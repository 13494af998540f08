-- ===== src/Names.antt =====
-- crates/onv-agent-lib/src/names.rs: every name, tag and file name the agent puts on a provider,
-- and how it recognises them. Identifiers are ASCII, so a text's length is its number of bytes.
pub mod Stamp
pub mod Keys
pub mod Snippets
use mathlib.Core.Logic.{◌⊎◌}
use omnuv_provider.Base.{
  ℕ, zero, suc, ◌+◌, Bool, true, false, ◌&&◌, ◌||◌, not, List, [], ◌∷◌, ◌++◌, map, Option, none,
  some, leb, ◌==◌, if◌then◌else◌, ◌>>=◌, length, keep, any, all, find, take, is_empty, is_some,
}
use omnuv_provider.Base.Text.{
  Text, codes, same, is_digit, is_hex_digit, is_alphanumeric, lowercase, trim, strip_prefix,
  strip_suffix, split,
}

abbrev pub prefix : Text
prefix = codes "onv"

abbrev pub tag_instance : Text
tag_instance = codes "onv-instance"

abbrev pub tag_gateway : Text
tag_gateway = codes "onv-gateway"

abbrev pub tag_worker : Text
tag_worker = codes "onv-worker"

abbrev pub tag_scrub : Text
tag_scrub = codes "onv-scrub"

abbrev pub pool : Text
pool = codes "onv"

abbrev pub pool_buyers : Text
pool_buyers = codes "onv-buyers"

-- The word a stamp has for each claim.
unfoldable pub label : Text → Text
label claim =
    if same claim tag_worker
    then codes "inference worker"
    else if same claim tag_scrub
    then codes "card scrub"
    else codes "instance"

unfoldable pub stamped : Text → Text → Text
unfolding label
stamped claim id = codes "Omnuv " ++ (label claim ++ (codes " " ++ id))

unfoldable pub description : Text → Text → Text
unfolding stamped
description claim id = stamped claim id ++ (10 ∷ codes "Managed by onv-provider. Do not edit.")

unfoldable pub instance_name : Text → Text
instance_name name = prefix ++ (codes "-" ++ name)

unfoldable pub scrub_name : Text → Text
scrub_name scrub_id = prefix ++ (codes "-scrub-" ++ take 8 scrub_id)

unfoldable pub worker_name : Text → Text
worker_name worker_id = prefix ++ (codes "-worker-" ++ take 8 worker_id)

unfoldable pub gpu_mapping : Text → Text
gpu_mapping pci =
    prefix ++ (codes "-gpu-" ++ map (λ c. if (c == b':') || (c == b'.') then b'-' else c) pci)

-- A lowercase uuid: dashes at four places, digits and the letters a to f elsewhere.
abbrev uuid_char : ℕ → ℕ → Bool
uuid_char i c =
    if (i == 8) || (i == 13) || (i == 18) || (i == 23)
    then c == b'-'
    else is_digit c || (leb b'a' c && leb c b'f')

unfoldable pub uuid_from : ℕ → Text → Bool
uuid_from i [] = true
uuid_from i (c ∷ s) = uuid_char i c && uuid_from (i + 1) s

unfoldable pub is_uuid : Text → Bool
unfolding uuid_from
is_uuid s = (length s == 36) && uuid_from 0 s

abbrev pub tag_prefix : Text
tag_prefix = codes "onv-"

unfoldable pub short_tag : Text → Text
short_tag id = tag_prefix ++ take 12 (keep (λ c. not (c == b'-')) id)

unfoldable pub key_tag : Text → Option Text
unfolding is_uuid
key_tag id = if is_uuid id then some (tag_prefix ++ id) else none

-- Whether one tag is this id's key, in either generation.
unfoldable pub is_key_of : Text → Text → Bool
unfolding short_tag key_tag
is_key_of token id =
    same token (short_tag id) || elim (key_tag id) [ none ↦ false | some k ↦ same token k ]

abbrev pub semicolon : ℕ → Bool
semicolon c = c == b';'

unfoldable pub carries_key : Text → Text → Bool
carries_key tags id = any (λ t. is_key_of (trim t) id) (split semicolon tags)

abbrev tag_separator : ℕ → Bool
tag_separator c = (c == b';') || (c == b',')

abbrev after_prefix : (Text → Bool) → Text → Bool
after_prefix p t = elim (strip_prefix tag_prefix t) [ none ↦ false | some r ↦ p r ]

-- The key a guest's tags carry: the whole one when there is one, else the twelve-digit one.
unfoldable pub key_in : Text → Option Text
unfolding trim split is_uuid strip_prefix
key_in tags =
    let tokens = map trim (split tag_separator tags) in
    elim (find (after_prefix is_uuid) tokens) [
      | some t ↦ some t
      | none ↦ find (after_prefix (λ r. (length r == 12) && all is_hex_digit r)) tokens
    ]

abbrev pub env_suffix : Option Text → Text
env_suffix none = []
env_suffix (some e) = if is_empty (trim e) then [] else codes ";onv-" ++ trim e

abbrev pub key_suffix : Option Text → Text
key_suffix none = []
key_suffix (some key) = codes ";" ++ key

unfoldable pub tags : Text → Text → Option Text → Text
unfolding short_tag key_tag trim
tags claim id environment =
    claim ++ (codes ";" ++ (short_tag id ++ (key_suffix (key_tag id) ++ env_suffix environment)))

abbrev pub yaml : Text
yaml = codes ".yaml"

unfoldable pub snippet_instance : Text → Text
snippet_instance id = codes "onv-instance-" ++ (id ++ yaml)

unfoldable pub snippet_network : Text → Text
snippet_network id = codes "onv-net-" ++ (id ++ yaml)

unfoldable pub snippet_meta : Text → Text
snippet_meta id = codes "onv-meta-" ++ (id ++ yaml)

unfoldable pub snippet_worker : Text → Text
snippet_worker id = codes "onv-worker-" ++ (id ++ yaml)

unfoldable pub snippet_worker_legacy : Text → Text
snippet_worker_legacy id = codes "onv-" ++ (id ++ yaml)

pub data SnippetKind : Type 0 where
  of_instance of_network of_meta of_worker of_worker_legacy : SnippetKind

abbrev pub Kinds : Type 0
Kinds = List (Text × SnippetKind)

abbrev pub kinds : Kinds
kinds =
    (codes "instance-", of_instance)
    ∷ (codes "net-", of_network)
    ∷ (codes "meta-", of_meta)
    ∷ (codes "worker-", of_worker)
    ∷ []

abbrev pub dashes : Text → ℕ
dashes s = length (keep (λ c. c == b'-') s)

unfoldable pub uuidish : Text → Bool
uuidish body =
    (length body == 36) && all (λ c. is_hex_digit c || (c == b'-')) body && (dashes body == 4)

-- The loop over the kinds, and the unkinded name after it.
unfoldable pub owner_of_body : Kinds → Text → Option (SnippetKind × Text)
owner_of_body [] body = if uuidish body then some (of_worker_legacy, body) else none
owner_of_body ((p, kind) ∷ rest) body = elim (strip_prefix p body) [
  | some id ↦ if is_empty id then none else some (kind, id)
  | none ↦ owner_of_body rest body
]

unfoldable pub snippet_owner : Text → Option (SnippetKind × Text)
unfolding owner_of_body strip_prefix strip_suffix
snippet_owner filename = strip_prefix prefix filename >>= λ a.
    strip_prefix (codes "-") a >>= λ rest.
    strip_suffix yaml rest >>= λ body. owner_of_body kinds body

unfoldable pub vnet : Text → Text
vnet network_id = prefix ++ map lowercase (take 5 (keep is_alphanumeric network_id))

abbrev legacy_tags : List Text
legacy_tags =
    codes "omnuv-instance"
    ∷ codes "omnuv-gateway"
    ∷ codes "omnuv-worker"
    ∷ codes "omnu-instance"
    ∷ codes "omnu-gateway"
    ∷ codes "omnu-worker"
    ∷ []

unfoldable pub is_legacy_marketplace_tag : Text → Bool
unfolding trim split
is_legacy_marketplace_tag tags =
    any (λ t. any (λ l. same l (trim t)) legacy_tags) (split tag_separator tags)
