-- ===== src/Stratum/Request.antt =====
-- crates/stratum/src/messages.rs: the requests of a miner. A JSON value, of the `serde_json` crate, is a
-- parameter with the accessors that the parser uses.
use zcash_mining_pool.Prelude.{
  ℕ, ◌%◌, String, List, [], str_eq, if◌then◌else◌, Option, none, some, get_elem?,
}

pub record Json : Type 1 where
  pub Value : Type 0
  pub null : Value
  pub as_str : Value → Option String
  pub as_u64 : Value → Option ℕ
  pub as_array : Value → Option (List Value)

module _ (J : Json) where
  open J use {Value, null, as_str, as_u64, as_array}

  -- `RawMessage`, as far as a request goes
  pub record RawMessage : Type 0 where
    pub id : Option Value
    pub method : Option String
    pub params : Option Value

  -- `ClientRequest`
  pub data ClientRequest : Type 0 where
    subscribe :
        Value
        → (user_agent : String) (session_id host : Option String) (port : Option ℕ) → ClientRequest
    authorize : Value → (worker_name worker_password : String) → ClientRequest
    submit : Value → (worker_name job_id time nonce_2 equihash_solution : String) → ClientRequest
    suggest_target : Value → (target : String) → ClientRequest
    extranonce_subscribe : Value → ClientRequest
    unknown : Value → (method : String) → ClientRequest

  abbrev pub then_str : Option Value → Option String
  then_str none = none
  then_str (some v) = as_str v

  -- `as_u64`, cut to a u16
  abbrev pub cut_u16 : Option ℕ → Option ℕ
  cut_u16 none = none
  cut_u16 (some n) = some (n % 65536)

  abbrev pub then_port : Option Value → Option ℕ
  then_port none = none
  then_port (some v) = cut_u16 (as_u64 v)

  abbrev pub or_empty : Option String → String
  or_empty none = ""
  or_empty (some s) = s

  -- Parameter `i` as a text, or an empty one.
  abbrev pub text_at : List Value → ℕ → String
  text_at arr i = or_empty (then_str (get_elem? arr i))

  -- A missing `params` is an empty array.
  abbrev pub array_of : Option Value → Option (List Value)
  array_of none = some []
  array_of (some v) = as_array v

  abbrev pub id_of : Option Value → Value
  id_of none = null
  id_of (some v) = v

  abbrev pub or_no_params : Option (List Value) → List Value
  or_no_params none = []
  or_no_params (some arr) = arr

  abbrev pub with_array : Option (List Value) → (List Value → ClientRequest) → Option ClientRequest
  with_array none make = none
  with_array (some arr) make = some (make arr)

  unfoldable pub parse_method : Value → Option (List Value) → String → Option ClientRequest
  parse_method id arr method =
      if str_eq method "mining.subscribe"
      then (let ps = or_no_params arr in
          some (
            subscribe id (text_at ps 0) (then_str (get_elem? ps 1)) (then_str (get_elem? ps 2))
              (then_port (get_elem? ps 3))))
      else if str_eq method "mining.authorize"
      then with_array arr (λ ps. authorize id (text_at ps 0) (text_at ps 1))
      else if str_eq method "mining.submit"
      then with_array arr (λ ps.
        submit id (text_at ps 0) (text_at ps 1) (text_at ps 2) (text_at ps 3) (text_at ps 4))
      else if str_eq method "mining.suggest_target"
      then with_array arr (λ ps. suggest_target id (text_at ps 0))
      else if str_eq method "mining.extranonce.subscribe"
      then some (extranonce_subscribe id)
      else some (unknown id method)

  abbrev pub on_method : Value → Option (List Value) → Option String → Option ClientRequest
  on_method id arr none = none
  on_method id arr (some method) = parse_method id arr method

  -- `ClientRequest::parse`
  unfoldable pub parse : RawMessage → Option ClientRequest
  parse raw = on_method (id_of raw.id) (array_of raw.params) raw.method
