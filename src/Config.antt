-- ===== src/Config.antt =====
-- StaticLib1/Config.cpp and what the parts of a server read from config.xml. The parsed document is a
-- parameter, since tinyxml is another project's library; so are the conversions of texts and numbers.
pub mod Terminals
pub mod Startup
use graduation_server.Common.{
  ℕ, ◌≡◌, refl, Bool, true, false, Option, none, some, List, ltb, length, if◌then◌else◌,
}

-- What a part of the start comes to; `broken` is undefined behaviour or an end by the runtime library,
-- `exits` an end by SErrLog.
pub data Start (A : Type 0) : Type 0 where
  ok : A → Start A
  exits broken : Start A

infixl 5 ◌>>=◌
abbrev pub ◌>>=◌ : {A B : Type 0} → Start A → (A → Start B) → Start B
ok a >>= f = f a
exits >>= f = exits
broken >>= f = broken

-- The names of the elements that the code asks for, such as "App" and "ThreadCount".
pub data Tag : Type 0 where
  app server ip port thread_count name terminal contents data_base server_name db login password
        task :
      Tag

-- `FirstChildElement(name)`, the elements that FirstChildElement() and NextSiblingElement() run through,
-- `Value`, and `GetText`, which may give a null pointer. `scan` is the `int` that `sscanf_s` finds in a
-- text for "%d", if it does. `widen` is what a wide text of so many characters holds after StrConvA2W, by
-- what it held before.
pub record Xml (N : Type 0) : Type 0 where
  pub first_child : Tag → N → Option N
  pub elements : N → List N
  pub value : N → List ℕ
  pub get_text : N → Option (List ℕ)
  pub scan : List ℕ → Option ℕ
  pub widen : ℕ → List ℕ → Option (List ℕ) → List ℕ

-- An argument that must not be a null pointer.
abbrev pub not_null : {A : Type 0} → Option A → Start A
not_null none = broken
not_null (some a) = ok a

-- `or` gives what a variable holds that may stay as it is.
abbrev pub or : Option ℕ → ℕ → ℕ
or none leftover = leftover
or (some n) leftover = n

module _ {N : Type 0} (xml : Xml N) where
  -- `config->FirstChildElement("App")->FirstChildElement(name)`
  unfoldable pub part : Tag → N → Start (Option N)
  part tag config = elim (xml.first_child app config) [
    | none ↦ broken
    | some node ↦ ok (xml.first_child tag node)
  ]

  -- `elem = root->FirstChildElement(name)` and `elem->GetText()`.
  unfoldable pub text_of : Tag → N → Start (Option (List ℕ))
  text_of tag root = elim (xml.first_child tag root) [
    | none ↦ broken
    | some elem ↦ ok (xml.get_text elem)
  ]

  -- `sscanf_s(elem->GetText(), "%d", &x)`
  unfoldable pub int_of : Tag → ℕ → N → Start ℕ
  unfolding text_of
  int_of tag leftover root = do
    text ← text_of tag root
    chars ← not_null text
    ok (or (xml.scan chars) leftover)

  -- `strcpy_s(ip_, elem->GetText())` to 16 characters, the last of which is the end of the text.
  unfoldable pub ip_of : N → Start (List ℕ)
  unfolding text_of
  ip_of root = do
    text ← text_of ip root
    chars ← not_null text
    if ltb (length chars) 16 then ok chars else broken

-- A chain that came through was given a value by its first step.
pub passed :
    {A B : Type 0} {after : A → Start B} {result : B} (first : Start A)
    → (first >>= after) ≡ ok result
    → (value : A) × (after value ≡ ok result) × (first ≡ ok value)
passed (ok value) ran = (value, ran, refl)
passed exits ran = cc
passed broken ran = cc
