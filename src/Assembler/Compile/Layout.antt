-- ===== src/Assembler/Compile/Layout.antt =====
-- Where the lines of `compile` in src/parse.c stand: behind an `.org`, each behind the one before
-- it.
use mikode.Prelude.{
  ℕ, zero, suc, ◌+◌, ◌≡◌, refl, sym, ◌∙◌, arith, Bool, true, false, not, List, [], ◌∷◌, ◌++◌,
  Option, some, none, if◌then◌else◌, all, length, codes,
}
use mathlib.Core.Path.{subst}
use mikode.Prelude.Holds.{Holds, gives, if_Holds, any-Holds, bind-Holds}
use mikode.Assembler.Token.{Buffer}
use mikode.Assembler.Symbols.{Tables}
use mikode.Assembler.Expression.{Evaluator}
use mikode.Assembler.Line.{Line, Rows}
use mikode.Assembler.Patch.{Patch}
use mikode.Assembler.Operand.Sizes.{Sized, coded, bare}
use mikode.Assembler.Parse.{begins}
use mikode.Assembler.Parse.Layout.{Entry, at_zero, by_org, parse-Entry}
use mikode.Assembler.Compile.{Pass, place, assign_address, pass_1, pass_2, patched}
use mikode.Image.{has_extra}

-- No line of a text is an `.org`.
abbrev pub no_org : List Buffer → Bool
no_org text = all (λ b. not (begins (codes ".org") b)) text

-- Each line starts where the one before it ends, the first one behind `p`.
pub data Follows : Line → List Line → Type 0 where
  ends : {p : Line} → Follows p []
  next :
      {p l : Line} {rest : List Line}
      → l.address ≡ p.address + p.size
      → Sized l
      → Follows l rest
      → Follows p (l ∷ rest)

-- From the line with the given number on.
pub data FollowsFrom : ℕ → List Line → Type 0 where
  here : {l : Line} {rest : List Line} → Sized l → Follows l rest → FollowsFrom zero (l ∷ rest)
  later :
      {n : ℕ} {l : Line} {rest : List Line} → FollowsFrom n rest → FollowsFrom (suc n) (l ∷ rest)

with_address : {l : Line} (a : ℕ) → Sized l → Sized (record l { address = a })
with_address a (coded e k) = coded e k
with_address a (bare e k m) = bare e k m

assign_address-Sized : (prev l : Line) → Sized l → Holds Sized (assign_address prev l)
unfolding assign_address
assign_address-Sized prev l h = if_Holds _ (any-Holds _ λ u. gives (with_address _ h)) (gives h)

place-Sized : (prev : Option Line) (l : Line) → Sized l → Holds Sized (place prev l)
unfolding place
place-Sized none l h = gives h
place-Sized (some prev) l h = assign_address-Sized prev l h

-- A line and the end of the one before it.
record Behind (p l : Line) : Type 0 where
  starts : l.address ≡ p.address + p.size
  sized : Sized l

assign_address-Behind :
    (p l : Line) → l.address ≡ 0 → Sized l → Holds (Behind p) (assign_address p l)
unfolding assign_address
assign_address-Behind p l e h =
    rw e (any-Holds _ λ u. gives (record { starts = refl; sized = with_address _ h }))

Entry-Sized : {b : Buffer} {l : Line} → Entry b l → Sized l
Entry-Sized (at_zero h) = h.sized
Entry-Sized (by_org e a h) = h

Entry-zero : {b : Buffer} {l : Line} → Entry b l → begins (codes ".org") b ≡ false → l.address ≡ 0
Entry-zero (at_zero h) e = h.address_kept
Entry-zero (by_org h a s) e = cc

module _ (te : Evaluator) (junk : List ℕ) where
  pass_1-Follows :
      (p : Line) (t : Tables) (d : Rows) (text : List Buffer)
      → no_org text ≡ true
      → Holds (λ (q : Pass). Follows p q.lines) (pass_1 te junk (some p) t d text)
  unfolding pass_1 place
  pass_1-Follows p t d [] h = gives ends
  pass_1-Follows p t d (b ∷ rest) h = bind-Holds (parse-Entry te junk t d b) λ r entry.
      bind-Holds
        (assign_address-Behind p r.line (Entry-zero entry (ground arith)) (Entry-Sized entry))
        λ l behind.
          bind-Holds (pass_1-Follows l r.tables r.rows rest (ground arith))
            λ q follows. gives (next behind.starts behind.sized follows)

  pub pass_1-FollowsFrom :
      (prev : Option Line) (t : Tables) (d : Rows) (before : List Buffer) (b : Buffer)
      (after : List Buffer)
      → no_org after ≡ true
      → Holds
          (λ (q : Pass). FollowsFrom (length before) q.lines)
          (pass_1 te junk prev t d (before ++ (b ∷ after)))
  unfolding pass_1
  pass_1-FollowsFrom prev t d [] b after h = bind-Holds (parse-Entry te junk t d b) λ r entry.
      bind-Holds (place-Sized prev r.line (Entry-Sized entry)) λ l sized.
        bind-Holds (pass_1-Follows l r.tables r.rows after h)
          λ q follows. gives (here sized follows)
  pass_1-FollowsFrom prev t d (c ∷ before) b after h = any-Holds _ λ r. any-Holds _ λ l.
      bind-Holds (pass_1-FollowsFrom (some l) r.tables r.rows before b after h)
        λ q found. gives (later found)

-- The second pass moves no line.
record Stays (l l' : Line) : Type 0 where
  same_address : l'.address ≡ l.address
  same_size : l'.size ≡ l.size
  still_sized : Sized l'

module _ (te : Evaluator) (t : Tables) where
  patched-coded :
      (l : Line) (k : Patch)
      → l.dataidx ≡ 0
      → l.size ≡ (if has_extra l.type then 4 else 2)
      → Holds (Stays l) (patched te t l k)
  unfolding patched
  patched-coded l Patch.no_patch e h =
      gives (record { same_address = refl; same_size = refl; still_sized = coded e h })
  patched-coded l k e h = any-Holds _ λ r.
      any-Holds _
        λ c. gives (record { same_address = refl; same_size = refl; still_sized = coded e h })

  patched-Stays : (l : Line) → Sized l → Holds (Stays l) (patched te t l l.patch)
  unfolding patched
  patched-Stays l (coded e h) = patched-coded l l.patch e h
  patched-Stays l (bare e k m) =
      subst (λ k. Holds (Stays l) (patched te t l k)) (sym k)
        (gives (record { same_address = refl; same_size = refl; still_sized = bare e k m }))

  pass_2-Follows :
      {p : Line} (p' : Line) {ls : List Line}
      → p'.address ≡ p.address
      → p'.size ≡ p.size
      → Follows p ls
      → Holds (Follows p') (pass_2 te t ls)
  unfolding pass_2
  pass_2-Follows p' e h ends = gives ends
  pass_2-Follows p' e h (next {l} {rest} at sized follows) =
      bind-Holds (patched-Stays l sized) λ l' stays.
        bind-Holds (pass_2-Follows l' stays.same_address stays.same_size follows) λ rest' follows'.
          gives (next (stays.same_address ∙ at ∙ omega arith) stays.still_sized follows')

  pub pass_2-FollowsFrom :
      {n : ℕ} {ls : List Line} → FollowsFrom n ls → Holds (FollowsFrom n) (pass_2 te t ls)
  unfolding pass_2
  pass_2-FollowsFrom (here {l} {rest} sized follows) =
      bind-Holds (patched-Stays l sized) λ l' stays.
        bind-Holds (pass_2-Follows l' stays.same_address stays.same_size follows)
          λ rest' follows'. gives (here stays.still_sized follows')
  pass_2-FollowsFrom (later found) =
      any-Holds _ λ l'. bind-Holds (pass_2-FollowsFrom found) λ rest' found'. gives (later found')
