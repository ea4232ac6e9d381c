-- ===== src/Service/IntakeStore/Bodies.antt =====
-- Drafts that are known by a text, as an example of the drafts of a store.
use coffix.Prelude.{
  zero, suc, ◌≡◌, refl, sym, ap, ◌∙◌, Option, none, some, List, [], ◌∷◌, ◌++◌, Text, codes, arith,
  append-nil, append_assoc,
}
use coffix.Service.IntakeStore.{Drafts, DraftsLaws}

-- A list of keys: every key, its codes moved up, ends with a zero.
abbrev pub decode_from : Text → Text → List Text
decode_from key [] = []
decode_from key (zero ∷ s) = key ∷ decode_from [] s
decode_from key (suc c ∷ s) = decode_from (key ++ c ∷ []) s

abbrev pub encode_key : Text → Text → Text
encode_key [] rest = 0 ∷ rest
encode_key (c ∷ key) rest = suc c ∷ encode_key key rest

abbrev pub encode_keys : List Text → Text
encode_keys [] = []
encode_keys (key ∷ keys) = encode_key key (encode_keys keys)

abbrev pub parse_body : Text → Option Text
parse_body [] = none
parse_body (c ∷ body) = some body

-- Drafts of one machine, known by their text.
abbrev pub bodies : Drafts Text
bodies = record {
  machine_id = λ body. codes "m1";
  empty_draft = λ machine_id. [];
  spread = λ a b. b;
  stringify = λ body. b'{' ∷ body;
  parse = parse_body;
  stringify_keys = encode_keys;
  parse_keys = λ s. some (decode_from [] s);
}

decode-encode_key :
    (before key rest : Text)
    → decode_from before (encode_key key rest) ≡ (before ++ key) ∷ decode_from [] rest
decode-encode_key before [] rest = ap (λ k. k ∷ decode_from [] rest) (sym (append-nil before))
decode-encode_key before (c ∷ key) rest =
    decode-encode_key (before ++ c ∷ []) key rest
    ∙ ap (λ k. k ∷ decode_from [] rest) (append_assoc before (c ∷ []) key)

decode-encode_keys : (keys : List Text) → decode_from [] (encode_keys keys) ≡ keys
decode-encode_keys [] = refl
decode-encode_keys (key ∷ keys) =
    decode-encode_key [] key (encode_keys keys) ∙ ap (λ k. key ∷ k) (decode-encode_keys keys)

pub bodies-DraftsLaws : DraftsLaws bodies
bodies-DraftsLaws = record {
  parse-stringify = λ body. refl;
  parse-stringify_keys = λ keys. ap some (decode-encode_keys keys);
  stringify-Nonempty = λ body. omega arith;
  spread_lem = λ a b. refl;
  parse_no_keys = refl;
}
