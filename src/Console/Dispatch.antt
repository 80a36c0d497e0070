-- ===== src/Console/Dispatch.antt =====
-- The handlers of the socket: what they do with a message of the server, and with the consumers
-- (src/main/resources/web-data/js/main.js).
pub mod Retries
use Prim.Native.String.{◌++◌ as concat}
use dyn_dco.Base.{
  ℕ, String, Option, none, some, List, [], ◌∷◌, ◌++◌, Bool, true, false, if◌then◌else◌, ite,
  string_discrete, update, contains, lookup,
}
use dyn_dco.Console.Orders.{Request, Console, order, lose_connection}

-- A module that is enabled: the providers that it requires, and which optional handlers it has.
pub record Consumer : Type 0 where
  pub requires : List String
  pub has_notready : Bool
  pub has_onclose : Bool
  pub has_onerror : Bool

-- A message of the server; the fields that a provider does not use are empty.
pub record Incoming : Type 0 where
  pub provider : String
  pub requestor : String
  pub request : Request
  pub msg : String
  pub stacktrace : String
  pub comment : String

-- The calls that a handler makes, in their order.
pub data Call (C : Type 0) : Type 0 where
  show_error : String → Call C
  show_success : Call C
  log : String → Call C
  callback : C → Call C
  opened : String → Call C
  closed : String → Call C
  failed : String → Call C
  not_ready : String → Call C
  delivered : String → Call C

-- The console, the calls, and whether the handler came to its end.
abbrev pub Outcome : Type 0 → Type 0
Outcome C = Console C × (List (Call C) × Bool)

module _ {C : Type 0} where
  -- The request is sent again after half a second.
  unfoldable pub retry : List (String × Consumer) → Incoming → Console C → Outcome C
  retry consumers j c =
      let d = order j.request 500 none c in
      elim (lookup j.requestor consumers) [
        | none ↦ (d, ([], false))
        | some m ↦ (d, (if m.has_notready then not_ready j.requestor ∷ [] else [], true))
      ]

  -- The three providers that the main module answers itself.
  unfoldable pub respond : List (String × Consumer) → Incoming → Console C → Outcome C
  respond consumers j c = ite (string_discrete j.provider "notready") (retry consumers j c) (
      ite (string_discrete j.provider "error")
        (c, (log j.stacktrace ∷ show_error (concat j.msg (concat ": " j.stacktrace)) ∷ [], true))
        (ite (string_discrete j.provider "invalid")
          (c, (show_error (concat j.msg (concat ", Comment: " j.comment)) ∷ [], true))
          (c, ([], true))))

  unfoldable pub call_back : String → Console C → Console C × List (Call C)
  call_back provider c = elim (c.callbacks provider) [
    | none ↦ (c, [])
    | some cb ↦ (record c { callbacks = update c.callbacks provider none }, callback cb ∷ [])
  ]

  -- `consumer.onmessage(j)` for each that requires the provider.
  abbrev pub deliver : String → List (String × Consumer) → List (Call C)
  deliver provider [] = []
  deliver provider ((name, m) ∷ rest) =
      let others = deliver provider rest in
      if contains m.requires provider then delivered name ∷ others else others

  unfoldable pub on_message : List (String × Consumer) → Incoming → Console C → Outcome C
  on_message consumers j c =
      let (d, (first, completed)) = respond consumers j c in
      if completed
      then (let (e, second) = call_back j.provider d in
          (e, (first ++ second ++ deliver j.provider consumers, true)))
      else (d, (first, false))

  abbrev pub tell_closed : List (String × Consumer) → List (Call C)
  tell_closed [] = []
  tell_closed ((name, m) ∷ rest) =
      let others = tell_closed rest in if m.has_onclose then closed name ∷ others else others

  unfoldable pub on_close : List (String × Consumer) → Console C → Console C × List (Call C)
  on_close consumers c = (
    lose_connection c,
    show_error "Connection Lost. Reconnecting to WebSocket..." ∷ tell_closed consumers,
  )

  abbrev pub tell_opened : List (String × Consumer) → List (Call C)
  tell_opened [] = []
  tell_opened ((name, m) ∷ rest) = opened name ∷ tell_opened rest

  unfoldable pub on_open : List (String × Consumer) → Console C → Console C × List (Call C)
  on_open consumers c = (record c { is_open = true }, show_success ∷ tell_opened consumers)

  abbrev pub on_error : List (String × Consumer) → List (Call C)
  on_error [] = []
  on_error ((name, m) ∷ rest) =
      let others = on_error rest in if m.has_onerror then failed name ∷ others else others
