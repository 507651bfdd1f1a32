-- ===== src/Middleware/Through.antt =====
-- packages/server/src/middleware.ts: a chain is the composition of its handlers.
use sockethub.Base.{suc, ◌≡◌, refl, List, [], ◌∷◌, ◌++◌, none, some, length, ap, subst}
use mathlib.Core.List.{append_assoc}
use sockethub.Middleware.{
  Reply, passes, raises, passes_nothing, is_silent, Outcome, called_back, failed, pending, nth,
  next, done,
}

module _ {ℓ} {T : Type ℓ} where
  -- The specification, by recursion on the handlers.
  unfoldable pub through : T → List (T → Reply T) → Reply T → Outcome T
  through original hs (raises error) = failed error original
  through original hs is_silent = pending
  through original [] (passes d) = called_back d
  through original [] passes_nothing = called_back original
  through original (h ∷ hs) (passes d) = through original hs (h d)
  through original (h ∷ hs) passes_nothing = through original hs (h original)

  nth-append : (before : List (T → Reply T)) → nth (length before) (before ++ []) ≡ none
  unfolding nth
  nth-append [] = refl
  nth-append (h ∷ hs) = nth-append hs

  nth-append_cons :
      (before hs : List (T → Reply T)) (h : T → Reply T)
      → nth (length before) (before ++ h ∷ hs) ≡ some h
  unfolding nth
  nth-append_cons [] hs h = refl
  nth-append_cons (g ∷ before) hs h = nth-append_cons before hs h

  length-snoc :
      (before : List (T → Reply T)) (h : T → Reply T)
      → length (before ++ h ∷ []) ≡ suc (length before)
  length-snoc [] h = refl
  length-snoc (g ∷ before) h = ap suc (length-snoc before h)

  -- One handler further.
  shift :
      (original : T) (h : T → Reply T) (hs before : List (T → Reply T)) (reply : Reply T)
      → next ((before ++ h ∷ []) ++ hs) original (suc (length hs)) (length (before ++ h ∷ [])) reply
        ≡ through original hs reply
      → next (before ++ h ∷ hs) original (suc (length hs)) (suc (length before)) reply
        ≡ through original hs reply
  shift original h hs before reply e =
      subst
        (λ l.
          next l original (suc (length hs)) (suc (length before)) reply ≡ through original hs reply)
        (append_assoc before (h ∷ []) hs)
        (subst
          (λ n.
            next ((before ++ h ∷ []) ++ hs) original (suc (length hs)) n reply
            ≡ through original hs reply)
          (length-snoc before h) e)

  next-through :
      (original : T) (hs before : List (T → Reply T)) (reply : Reply T)
      → next (before ++ hs) original (suc (length hs)) (length before) reply
        ≡ through original hs reply
  unfolding next through
  next-through original [] before (raises error) = refl
  next-through original [] before is_silent = refl
  next-through original [] before (passes d) = rw (next, nth-append before)
  next-through original [] before passes_nothing = rw (next, nth-append before)
  next-through original (h ∷ hs) before (raises error) = refl
  next-through original (h ∷ hs) before is_silent = refl
  next-through original (h ∷ hs) before (passes d) =
      rw (next, nth-append_cons before hs h)
        (shift original h hs before (h d) (next-through original hs (before ++ h ∷ []) (h d)))
  next-through original (h ∷ hs) before passes_nothing =
      rw (next, nth-append_cons before hs h)
        (shift original h hs before (h original)
          (next-through original hs (before ++ h ∷ []) (h original)))

  -- The run of a chain always ends, within one call of `next` more than there are handlers, and it is
  -- the composition of the handlers in order: each gets what the one before passed on, or what the
  -- chain was given if that called `next` without data; the first error ends it, and a handler that
  -- does not call `next` leaves it there.
  pub done-through :
      (chain : List (T → Reply T)) (original : T)
      → done chain original ≡ through original chain (passes original)
  unfolding done
  done-through chain original = next-through original chain [] (passes original)
