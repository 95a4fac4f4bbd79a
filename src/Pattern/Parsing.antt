-- ===== src/Pattern/Parsing.antt =====
-- What ParsePattern computes, in terms of the pattern read from its last character.
use mathlib.Core.List.{reverse-append, reverse_aux}
use lottery_search_system.Prelude.{
  ℕ, zero, suc, ◌+◌, ◌-◌, ◌*◌, ◌<◌, ◌≤◌, ◌≡◌, ◌≢◌, refl, ap, ◌∙◌, subst, true, false, List, [], ◌∷◌,
  ◌++◌, reverse, length, length-reverse, ◌==◌, Bool-cases, inl, inr, arith,
}
use lottery_search_system.Pattern.{
  Pattern, bad_length, bad_character, Parsed, parsed, malformed, digits, pow10, star, is_digit,
  parse_loop, parse_pattern,
}
use lottery_search_system.Pattern.Horner.{
  is_pattern_character, AllCharacters, fixed_value, positions,
}

pub pow10_step : (i : ℕ) → i < 6 → pow10 (6 - i) ≡ 10 * pow10 (5 - i)
pow10_step zero h = refl
pow10_step (suc zero) h = refl
pow10_step (suc (suc zero)) h = refl
pow10_step (suc (suc (suc zero))) h = refl
pow10_step (suc (suc (suc (suc zero)))) h = refl
pow10_step (suc (suc (suc (suc (suc zero))))) h = refl
pow10_step (suc (suc (suc (suc (suc (suc i)))))) h = absurd (omega arith)

-- A digit read after the value `f` of those before it.
pub next_digit :
    (f d i : ℕ) → i < 6 → f * pow10 (6 - i) + d * pow10 (5 - i) ≡ (d + 10 * f) * pow10 (6 - suc i)
next_digit f d i h =
    let shifted : 6 - suc i ≡ 5 - i = omega arith in rw (shifted, pow10_step i h) (omega arith)

-- `p` holds the characters `done`, the last first.
pub record Holds (done : List ℕ) (p : Pattern) : Type 0 where
  pub value : p.base ≡ fixed_value done * pow10 (6 - length done)
  pub wild : reverse p.wildcards ≡ positions done

Holds-star :
    (c : ℕ) (done : List ℕ) (p : Pattern)
    → (c == star) ≡ true
    → length done < 6
    → Holds done p
    → Holds (c ∷ done) (record p { wildcards = p.wildcards ++ length done ∷ [] })
unfolding fixed_value positions
Holds-star c done p e lt h = record {
  value = rw e (omega (arith, h.value, next_digit (fixed_value done) 0 (length done) lt));
  wild = rw (e, reverse-append p.wildcards (length done ∷ [])) (ap (◌∷◌ (length done)) h.wild);
}

Holds-digit :
    (c : ℕ) (done : List ℕ) (p : Pattern)
    → (c == star) ≡ false
    → length done < 6
    → Holds done p
    → Holds (c ∷ done) (record p { base = p.base + (c - b'0') * pow10 (5 - length done) })
unfolding fixed_value positions
Holds-digit c done p e lt h = record {
  value = rw e (omega (arith, h.value, next_digit (fixed_value done) (c - b'0') (length done) lt));
  wild = rw e h.wild;
}

-- The ways in which the loop can end.
pub data Outcome (done cs : List ℕ) : Parsed → Type 0 where
  accepts :
      (q : Pattern) → AllCharacters cs → Holds (reverse_aux cs done) q → Outcome done cs (parsed q)
  rejects :
      (before : List ℕ) (c : ℕ) (after : List ℕ)
      → cs ≡ before ++ c ∷ after
      → AllCharacters before
      → is_pattern_character c ≡ false
      → Outcome done cs (malformed (bad_character c))

Outcome-cons :
    (done : List ℕ) (c : ℕ) (cs : List ℕ) {r : Parsed}
    → is_pattern_character c ≡ true
    → Outcome (c ∷ done) cs r
    → Outcome done (c ∷ cs) r
Outcome-cons done c cs h (accepts q all holds) = accepts q (h, all) holds
Outcome-cons done c cs h (rejects before d after e all bad) =
    rejects (c ∷ before) d after (ap (◌∷◌ c) e) (h, all) bad

parse_loop-Outcome :
    (i : ℕ) (done cs : List ℕ) (p : Pattern)
    → i ≡ length done
    → length done + length cs ≤ 6
    → Holds done p
    → Outcome done cs (parse_loop i cs p)
unfolding parse_loop
parse_loop-Outcome i done [] p e h v = accepts p tt v
parse_loop-Outcome i done (c ∷ cs) p e h v = elim (Bool-cases (c == star)) [
  | inl wild ↦
      rw (wild, parse_loop)
        (Outcome-cons done c cs (ground arith) (
          parse_loop-Outcome (suc i) (c ∷ done) cs _ (ap suc e) (omega arith)
            (rw e (Holds-star c done p wild (omega arith) v))))
  | inr fixed ↦ elim (Bool-cases (is_digit c)) [
    | inl digit ↦
        rw (fixed, digit, parse_loop)
          (Outcome-cons done c cs (ground arith) (
            parse_loop-Outcome (suc i) (c ∷ done) cs _ (ap suc e) (omega arith)
              (rw e (Holds-digit c done p fixed (omega arith) v))))
    | inr other ↦ rw (fixed, other, parse_loop) (rejects [] c cs refl tt (ground arith))
  ]
]

-- What a parsed pattern is.
pub record IsParsed (s : List ℕ) (p : Pattern) : Type 0 where
  pub size : length s ≡ 6
  pub characters : AllCharacters s
  pub value : p.base ≡ fixed_value (reverse s)
  pub wild : reverse p.wildcards ≡ positions (reverse s)

-- The three ways in which ParsePattern can end.
pub data Verdict (s : List ℕ) : Parsed → Type 0 where
  accepted : (p : Pattern) → IsParsed s p → Verdict s (parsed p)
  wrong_length : length s ≢ 6 → Verdict s (malformed (bad_length (length s)))
  wrong_character :
      (before : List ℕ) (c : ℕ) (after : List ℕ)
      → length s ≡ 6
      → s ≡ before ++ c ∷ after
      → AllCharacters before
      → is_pattern_character c ≡ false
      → Verdict s (malformed (bad_character c))

Outcome-Verdict : (s : List ℕ) {r : Parsed} → length s ≡ 6 → Outcome [] s r → Verdict s r
Outcome-Verdict s e (accepts q all holds) = accepted q (record {
  size = e;
  characters = all;
  value = omega (arith, rw whole at holds.value);
  wild = holds.wild;
})
  where
    whole : length (reverse s) ≡ 6
    whole = length-reverse s ∙ e
Outcome-Verdict s e (rejects before c after split all bad) =
    wrong_character before c after e split all bad

-- ParsePattern accepts exactly the texts of six characters that are digits or stars, and its pattern
-- holds their fixed value and the positions of their stars. It refuses any other length with that
-- length, and otherwise names the first character that is neither.
pub parse_pattern-Verdict : (s : List ℕ) → Verdict s (parse_pattern s)
unfolding parse_pattern fixed_value positions
parse_pattern-Verdict s = elim (Bool-cases (length s == digits)) [
  | inl e ↦
      let size : length s ≡ 6 = ground arith in
      rw (e, parse_pattern)
        (Outcome-Verdict s size
          (parse_loop-Outcome 0 [] s _ refl (omega arith) (record { value = refl; wild = refl })))
  | inr e ↦ rw (e, parse_pattern) (wrong_length (ground arith))
]

-- An accepted text is a parsed pattern.
pub parsed-IsParsed : (s : List ℕ) (p : Pattern) → parse_pattern s ≡ parsed p → IsParsed s p
parsed-IsParsed s p e = go (parse_pattern s) (parse_pattern-Verdict s) e
  where
    go : (r : Parsed) → Verdict s r → r ≡ parsed p → IsParsed s p
    go r (accepted q h) e = subst (IsParsed s) (cc) h
    go r (wrong_length h) e = cc
    go r (wrong_character b c a h i j k) e = cc
