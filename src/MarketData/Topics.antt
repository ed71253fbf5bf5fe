-- ===== src/MarketData/Topics.antt =====
-- `handle_message`: how a message's topic is taken apart.
use Prim.Native.Char.{Char, code}
use text.Mathlib.TextLemmas.{nil-append, cons-append}
use aegis_sdk.Prelude.{
  String, concat, List, [], ◌∷◌, Bool, true, false, not, ◌&&◌, ◌≡◌, refl, ap, ◌∙◌, ◌==◌, leb,
  length, if◌then◌else◌, is_eq_code, drop, arith,
}
use aegis_sdk.DataStream.{StreamMessage}

-- one more character in front of the first part
abbrev push_front : Char → List String → List String
push_front c [] = (String.◌∷◌ c String.[]) ∷ []
push_front c (part ∷ parts) = (String.◌∷◌ c part) ∷ parts

-- `split('.')`
unfoldable pub split_dots : String → List String
split_dots String.[] = String.[] ∷ []
split_dots (String.◌∷◌ c s) =
    let parts = split_dots s in
    if is_eq_code (code c) b'.' then String.[] ∷ parts else push_front c parts

-- the arms of the `match`
pub data Handled (V : Type 0) : Type 0 where
  agg_trade : String → V → Handled V
  kline : String → String → V → Handled V
  unhandled : String → Handled V

-- the topic without the first two segments, if it has three at least
unfoldable pub relevant : List String → List String
relevant parts = if leb 3 (length parts) then drop 2 parts else parts

module _ {V : Type 0} where
  unfoldable pub match_parts : StreamMessage V → List String → Handled V
  match_parts msg (stream ∷ sym ∷ []) =
      if stream == "aggTrades" then agg_trade sym msg.content else unhandled msg.topic
  match_parts msg (stream ∷ sym ∷ tf ∷ []) =
      if stream == "klines" then kline sym tf msg.content else unhandled msg.topic
  match_parts msg _ = unhandled msg.topic

  unfoldable pub handle_message : StreamMessage V → Handled V
  unfolding split_dots relevant match_parts
  handle_message msg = match_parts msg (relevant (split_dots msg.topic))

-- No character is a dot.
unfoldable pub dotless : String → Bool
dotless String.[] = true
dotless (String.◌∷◌ c s) = not (is_eq_code (code c) b'.') && dotless s

abbrev pub IsDotless : String → Type 0
IsDotless s = dotless s ≡ true

-- Two segments with a dot between them.
infixr 60 ◌▪◌
abbrev pub ◌▪◌ : String → String → String
a ▪ b = concat a (concat "." b)

dot-append : (rest : String) → concat "." rest ≡ String.◌∷◌ "." rest
dot-append rest = cons-append "." "" rest ∙ ap (λ t. String.◌∷◌ "." t) (nil-append rest)

split-dot : (rest : String) → split_dots (concat "." rest) ≡ "" ∷ split_dots rest
split-dot rest = ap split_dots (dot-append rest) ∙ (unfold split_dots in refl)

split-char :
    (c : Char) (s : String) {part : String} {parts : List String}
    → is_eq_code (code c) b'.' ≡ false
    → split_dots s ≡ part ∷ parts
    → split_dots (String.◌∷◌ c s) ≡ String.◌∷◌ c part ∷ parts
unfolding split_dots
split-char c s no_dot h = ground arith

split-join : (a rest : String) → IsDotless a → split_dots (a ▪ rest) ≡ a ∷ split_dots rest
unfolding dotless
split-join String.[] rest h = ap split_dots (nil-append (concat "." rest)) ∙ split-dot rest
split-join (String.◌∷◌ c s) rest h =
    ap split_dots (cons-append c s (concat "." rest))
    ∙ split-char c (s ▪ rest) (ground arith) (split-join s rest (ground arith))

split-dotless : (a : String) → IsDotless a → split_dots a ≡ a ∷ []
unfolding dotless
split-dotless String.[] h = unfold split_dots in refl
split-dotless (String.◌∷◌ c s) h = split-char c s (ground arith) (split-dotless s (ground arith))

module _ (sym tf : String) (sym_dotless : IsDotless sym) (tf_dotless : IsDotless tf) where
  two : (stream : String) → IsDotless stream → split_dots (stream ▪ sym) ≡ stream ∷ sym ∷ []
  two stream h = split-join stream sym h ∙ ap (λ ps. stream ∷ ps) (split-dotless sym sym_dotless)

  three :
      (stream : String) → IsDotless stream → split_dots (stream ▪ sym ▪ tf) ≡ stream ∷ sym ∷ tf ∷ []
  three stream h =
      split-join stream (sym ▪ tf) h
      ∙ ap (λ ps. stream ∷ ps)
          (split-join sym tf sym_dotless ∙ ap (λ ps. sym ∷ ps) (split-dotless tf tf_dotless))

  prefixed :
      (session rest : String)
      → IsDotless session
      → split_dots ("aegis" ▪ session ▪ rest) ≡ "aegis" ∷ session ∷ split_dots rest
  prefixed session rest h =
      split-join "aegis" (session ▪ rest) (unfold dotless in refl)
      ∙ ap (λ ps. "aegis" ∷ ps) (split-join session rest h)

  -- A topic of the form aegis.<session>.klines.<symbol>.<timeframe> is handled as a kline of that symbol
  -- and timeframe, and aegis.<session>.aggTrades.<symbol> as a trade of that symbol, if no segment has a
  -- dot in it.
  pub handle_message-prefixed :
      {V : Type 0} (session : String) (content : V)
      → IsDotless session
      → (handle_message
            (record { topic = "aegis" ▪ session ▪ "klines" ▪ sym ▪ tf; content = content })
          ≡ kline sym tf content)
        × (handle_message
              (record { topic = "aegis" ▪ session ▪ "aggTrades" ▪ sym; content = content })
            ≡ agg_trade sym content)
  unfolding handle_message
  handle_message-prefixed session content h = (
    rw (prefixed session ("klines" ▪ sym ▪ tf) h, three "klines" (unfold dotless in refl)) refl,
    rw (prefixed session ("aggTrades" ▪ sym) h, two "aggTrades" (unfold dotless in refl)) refl,
  )

  -- Without that prefix a trade is handled all the same, but a kline, klines.<symbol>.<timeframe>, is not,
  -- whatever the symbol and the timeframe, if neither has a dot in it.
  pub handle_message-bare :
      {V : Type 0} (content : V)
      → (handle_message (record { topic = "klines" ▪ sym ▪ tf; content = content })
          ≡ unhandled ("klines" ▪ sym ▪ tf))
        × (handle_message (record { topic = "aggTrades" ▪ sym; content = content })
            ≡ agg_trade sym content)
  unfolding handle_message
  handle_message-bare content = (
    rw (three "klines" (unfold dotless in refl)) refl,
    rw (two "aggTrades" (unfold dotless in refl)) refl,
  )
