-- ===== src/DbAgent/Connect/Cut.antt =====
-- The buffer for the connection string: StaticLib1/ADODatabase.cpp:70-78.
use graduation_server.Common.{
  ℕ, zero, suc, ◌≤◌, ◌≡◌, refl, sym, ap, ◌∙◌, List, [], ◌∷◌, ◌++◌, append_assoc, arith, length,
  take,
}
use graduation_server.Common.Texts.{codes}
use graduation_server.DbAgent.Connect.{Account, connection_text}

take_within : (n : ℕ) (xs ys : List ℕ) → n ≤ length xs → take n (xs ++ ys) ≡ take n xs
take_within zero xs ys h = refl
take_within (suc n) [] ys h = absurd (omega arith)
take_within (suc n) (x ∷ xs) ys h = ap (λ t. x ∷ t) (take_within n xs ys (omega arith))

-- The connection string up to the password.
abbrev pub before_password : List ℕ → Account → List ℕ
before_password provider a =
    codes "Provider="
    ++ (provider
        ++ (codes ";Server="
            ++ (a.server
                ++ (codes ";Database=" ++ (a.name ++ (codes ";Uid=" ++ (a.id ++ codes ";Pwd=")))))))

split :
    (provider : List ℕ) (a : Account)
    → connection_text provider a ≡ take 127 (before_password provider a ++ (a.word ++ codes ";"))
unfolding connection_text
split provider a = simp append_assoc

-- A connection string whose other parts fill the buffer of 128 characters is the same for any password, so
-- that the worker connects with none; nothing reports it.
pub connection_text_cut :
    (provider word : List ℕ) (a : Account)
    → 127 ≤ length (before_password provider a)
    → connection_text provider (record a { word = word }) ≡ connection_text provider a
connection_text_cut provider word a long =
    split provider (record a { word = word })
    ∙ take_within 127 (before_password provider a) (word ++ codes ";") long
    ∙ sym (take_within 127 (before_password provider a) (a.word ++ codes ";") long)
    ∙ sym (split provider a)
