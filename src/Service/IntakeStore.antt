-- ===== src/Service/IntakeStore.antt =====
-- mobile/src/features/service/intakeStore.ts, `createIntakeStore`: drafts cut into chunks in the
-- secure store, and a registry of the keys in use. The store reads nothing of a draft but its
-- `machineId`, so the draft is a parameter, with its JSON form. `serialize` runs one operation after
-- the other, whether or not the one before was rejected (`run_all`).
pub mod Keys
pub mod Invariant
pub mod Removal
pub mod Saving
pub mod Logout
pub mod Session
pub mod Loading
pub mod Clearing
pub mod Bodies
mod Tests
use coffix.Prelude.{
  ◌≡◌, ℕ, zero, suc, ◌+◌, ◌-◌, ◌*◌, ◌/◌, ◌%◌, ◌<◌, max, Bool, true, false, not, ◌&&◌, ◌||◌, Option,
  none, some, List, [], ◌∷◌, ◌++◌, map, Text, text_eq, codes, decimal, number, or_else, length,
  take, drop, any, filter, ◌==◌, leb, if◌then◌else◌,
}
use coffix.Storage.{
  Outcome, ok, failed, SecureStore, Task, pure, raise, continue, ◌>>=◌, ◌>>◌, or_raise,
}

-- `encodeURIComponent`: the bytes of UTF-8, but for unreserved characters, as `%XY`; a surrogate
-- without its partner is an exception.
abbrev pub is_unreserved : ℕ → Bool
is_unreserved c =
    (leb b'0' c && leb c b'9')
    || (leb b'A' c && leb c b'Z')
    || (leb b'a' c && leb c b'z')
    || any (λ d. c == d) (codes "-_.!~*'()")

abbrev pub hex_digit : ℕ → ℕ
hex_digit n = if leb n 9 then b'0' + n else n + 55

abbrev pub percent : ℕ → Text → Text
percent byte rest = b'%' ∷ hex_digit (byte / 16) ∷ hex_digit (byte % 16) ∷ rest

abbrev pub encode_unit : ℕ → Text → Text
encode_unit c rest =
    if is_unreserved c
    then c ∷ rest
    else if leb c 0x7f
    then percent c rest
    else if leb c 0x7ff
    then percent (0xc0 + c / 64) (percent (0x80 + c % 64) rest)
    else percent (0xe0 + c / 4096) (percent (0x80 + c / 64 % 64) (percent (0x80 + c % 64) rest))

abbrev pub encode_pair : ℕ → ℕ → Text → Text
encode_pair high low rest =
    let point = 0x10000 + (high - 0xd800) * 1024 + (low - 0xdc00) in
    percent (0xf0 + point / 0x40000) (
      percent (0x80 + point / 4096 % 64)
        (percent (0x80 + point / 64 % 64) (percent (0x80 + point % 64) rest)))

abbrev pub map_option {ℓ κ} : {A : Type ℓ} {B : Type κ} → (A → B) → Option A → Option B
map_option f none = none
map_option f (some a) = some (f a)

-- `high` is a surrogate that waits for its partner.
unfoldable pub encode_from : Option ℕ → Text → Option Text
encode_from none [] = some []
encode_from (some high) [] = none
encode_from none (c ∷ s) =
    let paired = encode_from (some c) s in
    let single = map_option (encode_unit c) (encode_from none s) in
    if leb 0xd800 c && leb c 0xdbff
    then paired
    else if leb 0xdc00 c && leb c 0xdfff
    then none
    else single
encode_from (some high) (c ∷ s) =
    let paired = map_option (encode_pair high c) (encode_from none s) in
    if leb 0xdc00 c && leb c 0xdfff then paired else none

abbrev pub encode_uri_component : Text → Option Text
encode_uri_component s = encode_from none s

abbrev pub registry_key : Text
registry_key = codes "coffix.serviceDrafts.v1"

-- `.replace(/%/g, '_')`
abbrev pub underscored : Text → Text
underscored s = map (λ c. if c == b'%' then b'_' else c) s

abbrev pub draft_key : Text → Text → Text
draft_key scope machine = registry_key ++ b'.' ∷ (underscored scope ++ b'.' ∷ underscored machine)

unfoldable pub key_for : Text → Text → Option Text
unfolding encode_from
key_for scope machine_id = elim (encode_uri_component scope) [
  | none ↦ none
  | some s ↦ map_option (draft_key s) (encode_uri_component machine_id)
]

unfoldable pub chunk_key : Text → ℕ → Text
chunk_key key i = key ++ b'.' ∷ decimal i

-- `Number(value ?? 0)`: the store writes whole numbers only.
abbrev pub count_of : Option Text → ℕ
count_of none = 0
count_of (some text) = or_else (number text) 0

-- `Math.ceil(json.length / 400)`
abbrev pub chunk_count : Text → ℕ
chunk_count json = (length json + 399) / 400

-- `json.slice(i * 400, (i + 1) * 400)`
abbrev pub chunk : Text → ℕ → Text
chunk json i = take 400 (drop (i * 400) json)

-- What the store reads of a draft, `{ ...a, ...b }` of two drafts, and the JSON form of drafts and of lists of keys.
pub record Drafts (Draft : Type 0) : Type 0 where
  pub machine_id : Draft → Text
  pub empty_draft : Text → Draft
  pub spread : Draft → Draft → Draft
  pub stringify : Draft → Text
  pub parse : Text → Option Draft
  pub stringify_keys : List Text → Text
  pub parse_keys : Text → Option (List Text)

-- The documented behaviour of `JSON`: a text that `stringify` made is parsed to what it was made of,
-- and has at least the braces of the object. A draft has all fields, so it hides what it is spread over.
pub record DraftsLaws {Draft : Type 0} (J : Drafts Draft) : Type 0 where
  pub parse-stringify : (draft : Draft) → J.parse (J.stringify draft) ≡ some draft
  pub parse-stringify_keys : (keys : List Text) → J.parse_keys (J.stringify_keys keys) ≡ some keys
  pub stringify-Nonempty : (draft : Draft) → 0 < length (J.stringify draft)
  pub spread_lem : (a b : Draft) → J.spread a b ≡ b
  pub parse_no_keys : J.parse_keys (codes "[]") ≡ some []

abbrev pub includes : List Text → Text → Bool
includes keys key = any (λ other. text_eq other key) keys

-- The calls of the store's interface.
pub data Operation (Draft : Type 0) : Type 0 where
  loading : Text → Text → Operation Draft
  saving : Text → Draft → Operation Draft
  clearing : Text → Text → Operation Draft
  clearing_all : Operation Draft

module _ (S : SecureStore) {Draft : Type 0} (J : Drafts Draft) where
  unfoldable pub registry : Task S.Device (List Text)
  registry = do
    stored ← S.get_item registry_key
    or_raise (J.parse_keys (or_else stored (codes "[]")))

  -- The rounds of a loop that deletes chunks, from `i` on.
  unfoldable pub delete_chunks : Text → ℕ → ℕ → Task S.Device (Unit {0})
  delete_chunks key i zero = pure tt
  delete_chunks key i (suc n) = do S.delete_item (chunk_key key i); delete_chunks key (suc i) n

  unfoldable pub remove : Text → Task S.Device (Unit {0})
  remove key = do stored ← S.get_item key; delete_chunks key 0 (count_of stored); S.delete_item key

  unfoldable pub read_chunks : Text → ℕ → ℕ → Text → Task S.Device Text
  read_chunks key i zero json = pure json
  read_chunks key i (suc n) json = do
    piece ← S.get_item (chunk_key key i)
    read_chunks key (suc i) n (json ++ or_else piece [])

  abbrev pub check_machine : Text → Draft → Task S.Device Draft
  check_machine machine_id draft =
      if text_eq (J.machine_id draft) machine_id
      then pure (J.spread (J.empty_draft machine_id) draft)
      else raise

  abbrev pub load_stored : Text → Text → ℕ → Task S.Device Draft
  load_stored key machine_id zero = pure (J.empty_draft machine_id)
  load_stored key machine_id (suc n) = do
    json ← read_chunks key 0 (suc n) []
    draft ← or_raise (J.parse json)
    check_machine machine_id draft

  unfoldable pub load : Text → Text → Task S.Device Draft
  unfolding read_chunks
  load scope machine_id = do
    key ← or_raise (key_for scope machine_id)
    stored ← S.get_item key
    load_stored key machine_id (count_of stored)

  unfoldable pub write_chunks : Text → Text → ℕ → ℕ → Task S.Device (Unit {0})
  write_chunks key json i zero = pure tt
  write_chunks key json i (suc n) = do
    S.set_item (chunk_key key i) (chunk json i)
    write_chunks key json (suc i) n

  unfoldable pub add_key : List Text → Text → Task S.Device (Unit {0})
  add_key keys key =
      if includes keys key
      then pure tt
      else S.set_item registry_key (J.stringify_keys (keys ++ key ∷ []))

  -- The count first covers the old and the new chunks, then only the new ones.
  unfoldable pub store_json : Text → Text → Task S.Device (Unit {0})
  store_json key json = do
    stored ← S.get_item key
    S.set_item key (decimal (max (chunk_count json) (count_of stored)))
    write_chunks key json 0 (chunk_count json)
    delete_chunks key (chunk_count json) (count_of stored - chunk_count json)
    S.set_item key (decimal (chunk_count json))

  unfoldable pub save_json : Text → Text → Task S.Device (Unit {0})
  save_json key json = do keys ← registry; add_key keys key; store_json key json

  unfoldable pub save : Text → Draft → Task S.Device (Unit {0})
  unfolding save_json store_json
  save scope draft = do
    key ← or_raise (key_for scope (J.machine_id draft))
    save_json key (J.stringify draft)

  unfoldable pub clear_key : Text → Task S.Device (Unit {0})
  clear_key key = do
    remove key
    keys ← registry
    S.set_item registry_key (J.stringify_keys (filter (λ item. not (text_eq item key)) keys))

  unfoldable pub clear : Text → Text → Task S.Device (Unit {0})
  unfolding clear_key
  clear scope machine_id = do key ← or_raise (key_for scope machine_id); clear_key key

  unfoldable pub remove_all : List Text → Task S.Device (Unit {0})
  remove_all [] = pure tt
  remove_all (key ∷ keys) = do remove key; remove_all keys

  unfoldable pub clear_all : Task S.Device (Unit {0})
  clear_all = do keys ← registry; remove_all keys; S.delete_item registry_key

  abbrev pub forget : {A : Type 0} → Task S.Device A → Task S.Device (Unit {0})
  forget m = m >>= λ _. pure tt

  unfoldable pub perform : Operation Draft → Task S.Device (Unit {0})
  perform (loading scope machine_id) = forget (load scope machine_id)
  perform (saving scope draft) = save scope draft
  perform (clearing scope machine_id) = clear scope machine_id
  perform clearing_all = clear_all

  -- `queue = result.catch(() => {})`
  unfoldable pub run_all : List (Operation Draft) → S.Device → S.Device
  run_all [] d = d
  run_all (operation ∷ operations) d = run_all operations (perform operation d).1
