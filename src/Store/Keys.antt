-- ===== src/Store/Keys.antt =====
-- When two unique keys of the `Trade` table are one.
use text.Mathlib.TextLemmas.{append_cancel_left}
use tradetrack_api.Prelude.{
  ◌≡◌, ◌≢◌, true, false, String, concat, str_eq, str_eq_iff, arith, Bool-cases, inl, inr,
}
use tradetrack_api.Store.{TradeKey, same_key}

str_eq-ne : (s t : String) → s ≢ t → str_eq s t ≡ false
str_eq-ne s t ne = elim (Bool-cases (str_eq s t)) [
  | inl e ↦ absurd (ne ((str_eq_iff s t).0 e))
  | inr e ↦ e
]

pub same_key-user : (a b : TradeKey) → a.user_id ≢ b.user_id → same_key a b ≡ false
same_key-user a b ne = rw (str_eq-ne a.user_id b.user_id ne)

pub same_key-terminal : (a b : TradeKey) → a.terminal_name ≢ b.terminal_name → same_key a b ≡ false
same_key-terminal a b ne = ground (arith, str_eq-ne a.terminal_name b.terminal_name ne)

pub same_key-id :
    (a b : TradeKey) → a.terminal_trade_id ≢ b.terminal_trade_id → same_key a b ≡ false
same_key-id a b ne = ground (arith, str_eq-ne a.terminal_trade_id b.terminal_trade_id ne)

-- A prefix in front does not make two ids equal.
pub concat-ne : (prefix a b : String) → a ≢ b → concat prefix a ≢ concat prefix b
concat-ne prefix a b ne e = ne (append_cancel_left prefix a b e)

pub same_key→eq : (a b : TradeKey) → same_key a b ≡ true → a ≡ b
same_key→eq a b e =
    let parts : (str_eq a.user_id b.user_id ≡ true)
        × (str_eq a.terminal_name b.terminal_name ≡ true)
        × (str_eq a.terminal_trade_id b.terminal_trade_id ≡ true) =
      ground arith in
    let user = (str_eq_iff a.user_id b.user_id).0 parts.0 in
    let name = (str_eq_iff a.terminal_name b.terminal_name).0 parts.1 in
    let id = (str_eq_iff a.terminal_trade_id b.terminal_trade_id).0 parts.2 in cc
