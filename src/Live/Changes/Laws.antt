-- ===== src/Live/Changes/Laws.antt =====
-- What a client that applies the changes has.
use rw_manager_backend.Base.{
  ℕ, String, Bool, true, false, Option, none, some, List, [], ◌∷◌, is_some, or_else, get_or, eq_iff,
  if◌then◌else◌, arith, ◌≡◌, refl, Bool-cases, inl, inr,
}
use mathlib.Core.Option
use rw_manager_backend.Live.Response.{LiveResponse, LiveStatus, up, down}
use rw_manager_backend.Live.Changes.{
  Field, query_data_field, info_data_field, online_players_field, error_message_field, Changes,
  Json, same_status, is_removed, new_value, any_list, has_changes, field_changes,
  server_live_status_changes,
}

abbrev pub is_field : Field → Field → Bool
is_field query_data_field query_data_field = true
is_field info_data_field info_data_field = true
is_field online_players_field online_players_field = true
is_field error_message_field error_message_field = true
is_field _ _ = false

abbrev pub lists : Field → List Field → Bool
lists f [] = false
lists f (g ∷ gs) = if is_field f g then true else lists f gs

-- A field that is removed, changed, or kept.
abbrev pub update_field : {A : Type 0} → Field → List Field → Option A → Option A → Option A
update_field f removed changed old = if lists f removed then none else or_else changed old

-- A client merges the changed fields into its copy and drops the removed ones.
unfoldable pub apply_changes : Changes → LiveResponse → LiveResponse
apply_changes c r = record {
  status = get_or c.status r.status;
  query_data = update_field query_data_field c.removed c.query_data r.query_data;
  info_data = update_field info_data_field c.removed c.info_data r.info_data;
  online_players = update_field online_players_field c.removed c.online_players r.online_players;
  last_checked = get_or c.last_checked r.last_checked;
  error_message = update_field error_message_field c.removed c.error_message r.error_message;
}

module _ (json : Json) where
  -- Two responses read the same, but for the time of the check.
  pub record SameView (a b : LiveResponse) : Type 0 where
    pub status : a.status ≡ b.status
    pub query_data :
        Option.map json.value_text a.query_data ≡ Option.map json.value_text b.query_data
    pub info_data : Option.map json.value_text a.info_data ≡ Option.map json.value_text b.info_data
    pub online_players :
        Option.map json.list_text a.online_players ≡ Option.map json.list_text b.online_players
    pub error_message :
        Option.map json.string_text a.error_message ≡ Option.map json.string_text b.error_message

  pub SameView-refl : (r : LiveResponse) → SameView r r
  SameView-refl r = record {
    status = refl;
    query_data = refl;
    info_data = refl;
    online_players = refl;
    error_message = refl;
  }

-- A field of a copy that reads as the one before reads, after the update, as the next one.
field_updated :
    {A : Type 0} (text : A → String) (f : Field) (removed : List Field)
    (copy before next : Option A)
    → Option.map text copy ≡ Option.map text before
    → lists f removed ≡ is_removed before next
    → Option.map text (update_field f removed (new_value text before next) copy)
      ≡ Option.map text next
field_updated text f removed none none none same r = ground (arith, r)
field_updated text f removed none (some b) none same r = ground (arith, r)
field_updated text f removed (some c) none none same r = cc
field_updated text f removed (some c) (some b) none same r = ground (arith, r)
field_updated text f removed none none (some n) same r = ground (arith, r)
field_updated text f removed none (some b) (some n) same r = cc
field_updated text f removed (some c) none (some n) same r = cc
field_updated text f removed (some c) (some b) (some n) same r =
    let eq = eq_iff (text b) (text n) in ground (arith, r, eq, some_inj same)
  where
    some_inj : {x y : String} → some x ≡ some y → x ≡ y
    some_inj h = cc

-- Which fields are removed, as the list of them tells.
module _ (json : Json) (before next : LiveResponse) where
  abbrev removed_fields : List Field
  removed_fields = (field_changes json before next).removed

  pub query_data_removed :
      lists query_data_field removed_fields ≡ is_removed before.query_data next.query_data
  query_data_removed = ground arith

  pub info_data_removed :
      lists info_data_field removed_fields ≡ is_removed before.info_data next.info_data
  info_data_removed = ground arith

  pub online_players_removed :
      lists online_players_field removed_fields
      ≡ is_removed before.online_players next.online_players
  online_players_removed = ground arith

  pub error_message_removed :
      lists error_message_field removed_fields ≡ is_removed before.error_message next.error_message
  error_message_removed = ground arith

status_updated :
    (before next : LiveStatus)
    → get_or (if same_status before next then none else some next) before ≡ next
status_updated up up = refl
status_updated up down = refl
status_updated down up = refl
status_updated down down = refl

none_if : {A : Type 0} (x : Option A) → is_some x ≡ false → x ≡ none
none_if none h = refl
none_if (some a) h = absurd (cc h)

empty_if : (fs : List Field) → any_list fs ≡ false → fs ≡ []
empty_if [] h = refl
empty_if (f ∷ fs) h = absurd (cc h)

module _ (json : Json) where
  applied_fields :
      (copy before next : LiveResponse) (time : Option ℕ)
      → SameView json copy before
      → SameView json
          (apply_changes (record (field_changes json before next) { last_checked = time }) copy)
          next
  unfolding apply_changes
  applied_fields copy before next time same = record {
    status = rw same.status (status_updated before.status next.status);
    query_data =
        field_updated json.value_text query_data_field (removed_fields json before next)
          copy.query_data before.query_data next.query_data same.query_data
          (query_data_removed json before next);
    info_data =
        field_updated json.value_text info_data_field (removed_fields json before next)
          copy.info_data before.info_data next.info_data same.info_data
          (info_data_removed json before next);
    online_players =
        field_updated json.list_text online_players_field (removed_fields json before next)
          copy.online_players before.online_players next.online_players same.online_players
          (online_players_removed json before next);
    error_message =
        field_updated json.string_text error_message_field (removed_fields json before next)
          copy.error_message before.error_message next.error_message same.error_message
          (error_message_removed json before next);
  }

  -- A copy that reads as the response before, with the changes applied, reads as the next one.
  pub apply-changes :
      (copy before next : LiveResponse)
      → SameView json copy before
      → SameView json (apply_changes (server_live_status_changes json before next) copy) next
  unfolding server_live_status_changes
  apply-changes copy before next same =
      elim (Bool-cases (has_changes (field_changes json before next))) [
        | inl some_changed ↦
            rw some_changed (applied_fields copy before next (some next.last_checked) same)
        | inr none_changed ↦ rw none_changed (applied_fields copy before next none same)
      ]

-- Changes that are none leave a copy.
pub apply_none :
    (c : Changes) (copy : LiveResponse) → has_changes c ≡ false → apply_changes c copy ≡ copy
unfolding apply_changes has_changes
apply_none c copy h =
    rw
      (
        none_if c.status (ground (arith, h)),
        none_if c.query_data (ground (arith, h)),
        none_if c.info_data (ground (arith, h)),
        none_if c.online_players (ground (arith, h)),
        none_if c.error_message (ground (arith, h)),
        none_if c.last_checked (ground (arith, h)),
        empty_if c.removed (ground (arith, h)),
      )
      refl
