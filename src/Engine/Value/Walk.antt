-- ===== src/Engine/Value/Walk.antt =====
-- engine.c: the value that is found is that of the path of properties.
use planck.Text.{tokens}
use planck.Text.Tokens.{tokens-cons, tokens-one}
use planck.Munge.{munge}
use planck.Engine.Value.{Objects, walk, get_value}
use planck.Prelude.{◌≡◌, refl, ap, ◌∙◌, false, some, List, [], ◌∷◌, ◌++◌, Bytes, Free}

-- The parts of a namespace with dots between them; no part is empty or has a dot.
abbrev pub dotted : Bytes → List Bytes → Bytes
dotted part [] = part
dotted part (next ∷ parts) = part ++ b'.' ∷ dotted next parts

abbrev pub IsPart : Bytes → Type 0
IsPart [] = ⊥
IsPart (c ∷ cs) = Free b'.' (c ∷ cs)

abbrev pub AllParts : List Bytes → Type 0
AllParts [] = Unit
AllParts (part ∷ parts) = IsPart part × AllParts parts

tokens-dotted :
    (part : Bytes) (parts : List Bytes)
    → IsPart part
    → AllParts parts
    → tokens b'.' (dotted part parts) ≡ part ∷ parts
tokens-dotted [] parts p all = absurd p
tokens-dotted (c ∷ cs) [] p all = tokens-one b'.' c cs p
tokens-dotted (c ∷ cs) (next ∷ parts) p all =
    tokens-cons b'.' c cs (dotted next parts) p
    ∙ ap (◌∷◌ (c ∷ cs)) (tokens-dotted next parts all.0 all.1)

module _ {V O : Type 0} (js : Objects V O) where
  -- A chain of objects, each the property of the one before with the munged name of a part.
  pub data Leads : O → List Bytes → O → Type 0 where
    here : {o : O} → Leads o [] o
    along :
        {o next end : O} {part : Bytes} {parts : List Bytes}
        → js.is_undefined (js.property o (munge part)) ≡ false
        → js.to_object (js.property o (munge part)) ≡ some next
        → Leads next parts end
        → Leads o (part ∷ parts) end

  walk_lem :
      (parts : List Bytes) (name part : Bytes) {o end : O}
      → Leads o (part ∷ parts) end
      → walk js parts name (js.property o (munge part)) ≡ some (js.property end (munge name))
  unfolding walk
  walk_lem [] name part (along defined object here) = rw object refl
  walk_lem (next ∷ parts) name part (along defined object rest) =
      rw defined (rw object (walk_lem parts name next rest))

  -- Where each part of the namespace leads to an object, the value is the property of the last one
  -- that has the munged name.
  pub get_value_lem :
      {end : O} (part : Bytes) (parts : List Bytes) (name : Bytes)
      → IsPart part
      → AllParts parts
      → Leads js.global (part ∷ parts) end
      → get_value js (dotted part parts) name ≡ some (js.property end (munge name))
  unfolding get_value
  get_value_lem part parts name p all leads =
      rw (tokens-dotted part parts p all) (walk_lem parts name part leads)
