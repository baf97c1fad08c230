-- ===== src/Live/Subscribe/Parsed.antt =====
-- What a subscribe message that is parsed names.
use rw_manager_backend.Base.{
  String, Bool, true, false, all, Option, none, some, List, [], ◌∷◌, map, length, ltb, trim, unique,
  sort, byte_length, includes, IsDistinct, IsSorted, unique-IsDistinct, sort-IsDistinct,
  sort-IsSorted, includes-sort, includes-unique, Code, invalid_message, server_limit_exceeded,
  Result, ok, err, ok_inj, if◌then◌else◌, arith, ◌≡◌, ◌≤◌, refl, sym, ap, ◌∙◌, Bool-cases,
  Option-cases, inl, inr,
}
use mathlib.Core.Path.{subst}
use rw_manager_backend.Data.Value.{
  Value, undefined, null, bool, num, text, array, object, get, text?, array?,
}
use rw_manager_backend.Config.{AppConfig}
use rw_manager_backend.Live.Subscribe.{
  SubscribeMessage, is_id, join_id, is_object, ids_of, is_envelope, listed, within, from_item,
  max_message_bytes, parse_server_status_subscribe_message,
}

-- What the ids of a message come from: the strings of its property `serverIds`.
pub record IsRead (config : AppConfig) (item : Value) (message : SubscribeMessage) : Type 0 where
  pub ids : List String
  pub listed_ids : array? (get "serverIds" item) ≡ some (map text ids)
  pub count : length ids ≤ config.server_live_max_server_ids
  pub each_id : all is_id ids ≡ true
  pub same_ids : (x : String) → includes x message.server_ids ≡ includes x (map trim ids)
  pub distinct : IsDistinct message.server_ids
  pub sorted : IsSorted message.server_ids

-- A result that is no error passed the test.
passed :
    {A : Type 0} (b : Bool) (r : Result A) (e : Code) (a : A)
    → (if b then r else err e) ≡ ok a
    → (b ≡ true) × (r ≡ ok a)
passed true r e a h = (refl, h)
passed false r e a h = absurd (cc h)

missed :
    {A : Type 0} (b : Bool) (r : Result A) (e : Code) (a : A)
    → (if b then err e else r) ≡ ok a
    → (b ≡ false) × (r ≡ ok a)
missed false r e a h = (refl, h)
missed true r e a h = absurd (cc h)

texts_cons :
    (v : Value) (rest : Option (List String)) (ids : List String)
    → join_id (text? v) rest ≡ some ids
    → (s : String) × (ss : List String) × (v ≡ text s)
      × (rest ≡ some ss)
      × (ids ≡ s ∷ ss)
      × (is_id s ≡ true)
texts_cons (text s) none ids h = absurd (cc h)
texts_cons (text s) (some ss) ids h = elim (Bool-cases (is_id s)) [
  | inl e ↦
      let same : some (s ∷ ss) ≡ some ids =
        sym (ap (λ b. if b then some (s ∷ ss) else none) e) ∙ h in
      (s, ss, refl, refl, cc same, e)
  | inr e ↦
      let same : none ≡ some ids = sym (ap (λ b. if b then some (s ∷ ss) else none) e) ∙ h in
      absurd (cc same)
]
texts_cons undefined rest ids h = absurd (cc h)
texts_cons null rest ids h = absurd (cc h)
texts_cons (bool b) rest ids h = absurd (cc h)
texts_cons (num n) rest ids h = absurd (cc h)
texts_cons (array vs) rest ids h = absurd (cc h)
texts_cons (object ps) rest ids h = absurd (cc h)

ids_of-texts :
    (vs : List Value) (ids : List String)
    → ids_of vs ≡ some ids
    → (vs ≡ map text ids) × (all is_id ids ≡ true)
unfolding all
ids_of-texts [] ids h =
    let e : [] ≡ ids = cc h in
    subst (λ ids. ([] ≡ map text ids) × (all is_id ids ≡ true)) e (refl, refl)
ids_of-texts (v ∷ vs) ids h =
    let (s, ss, is_text, rest, split, good) = texts_cons v (ids_of vs) ids h in
    let (texts, every) = ids_of-texts vs ss rest in
    rw split (ground (arith, is_text, texts), ground (arith, good, every))

length-map_text : (ids : List String) → length (map text ids) ≡ length ids
length-map_text [] = refl
length-map_text (s ∷ ss) = omega (arith, length-map_text ss)

module _ (config : AppConfig) (subscribed : Bool) (item : Value) (message : SubscribeMessage) where
  listed_ok :
      (o : Option (List String))
      → listed subscribed item o ≡ ok message
      → (ids : List String) × (o ≡ some ids) × (message.server_ids ≡ sort (unique (map trim ids)))
  listed_ok none h = absurd (cc h)
  listed_ok (some ids) h =
      let (good, made) = passed (is_envelope subscribed item) _ invalid_message message h in
      (ids, refl, ap (λ (m : SubscribeMessage). m.server_ids) (sym (ok_inj made)))

  within_ok :
      (o : Option (List Value))
      → array? (get "serverIds" item) ≡ o
      → within config subscribed item o ≡ ok message
      → IsRead config item message
  within_ok none eq h = absurd (cc h)
  within_ok (some vs) eq h =
      let (few, made) =
        missed (ltb config.server_live_max_server_ids (length vs)) _ server_limit_exceeded message
          h in
      let (ids, read, ids_eq) = listed_ok (ids_of vs) made in
      let (texts, every) = ids_of-texts vs ids read in
      record {
        ids = ids;
        listed_ids = eq ∙ ap some texts;
        count = ground (arith, few, ap length texts, length-map_text ids);
        each_id = every;
        same_ids = λ x.
            ap (includes x) ids_eq
            ∙ includes-sort x (unique (map trim ids))
            ∙ includes-unique (map trim ids) x;
        distinct =
            subst IsDistinct (sym ids_eq)
              (sort-IsDistinct (unique (map trim ids)) (unique-IsDistinct (map trim ids)));
        sorted = subst IsSorted (sym ids_eq) (sort-IsSorted (unique (map trim ids)));
      }

  from_item_ok :
      (o : Option Value)
      → o ≡ some item
      → from_item config subscribed o ≡ ok message
      → IsRead config item message
  from_item_ok o e h =
      let (entries, made) =
        passed (is_object item) _ invalid_message message
          (sym (ap (from_item config subscribed) e) ∙ h) in
      within_ok (array? (get "serverIds" item)) refl made

-- A message that is parsed is JSON and names the strings of its property `serverIds`, without the
-- white space around them: each of these is not blank and of at most 200 code units, they are no
-- more than the limit, and the ids of the message are distinct and in order.
pub parse-IsRead :
    (config : AppConfig) (parse_json : String → Option Value) (subscribed : Bool) (frame : String)
    (message : SubscribeMessage)
    → parse_server_status_subscribe_message config parse_json subscribed frame ≡ ok message
    → (item : Value) × (parse_json frame ≡ some item) × IsRead config item message
unfolding parse_server_status_subscribe_message
parse-IsRead config parse_json subscribed frame message h =
    let (short, made) =
      missed (ltb max_message_bytes (byte_length frame)) _ invalid_message message h in
    elim (Option-cases (parse_json frame)) [
      | inl e ↦ absurd (cc (made, ap (from_item config subscribed) e))
      | inr (item, e) ↦
          (item, e, from_item_ok config subscribed item message (parse_json frame) e made)
    ]
