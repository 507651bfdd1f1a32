-- ===== src/Middleware.antt =====
-- packages/server/src/middleware.ts: a chain of handlers, each of which passes its data on by calling
-- `next`. A handler that calls `next` once, or never, is a function to what it passes.
mod Tests
pub mod Through
pub mod Validate
pub mod Accepts
use sockethub.Base.{
  ℕ, zero, suc, List, [], ◌∷◌, ◌++◌, Option, none, some, Text, codes, length, ◌⊎◌, inl, inr,
}

-- `next(data)`, `next(error)`, `next()`, and no call.
pub data Reply {ℓ} (T : Type ℓ) : Type ℓ where
  passes : T → Reply T
  raises : Text → Reply T
  passes_nothing : Reply T
  is_silent : Reply T

-- How a run of the chain ends: the callback is called, or the error handler with the error and the data
-- that the chain was given, or neither.
pub data Outcome {ℓ} (T : Type ℓ) : Type ℓ where
  called_back : T → Outcome T
  failed : Text → T → Outcome T
  pending : Outcome T
  out_of_fuel : Outcome T

module _ {ℓ} {T : Type ℓ} where
  -- `chain[position]`.
  unfoldable pub nth : ℕ → List (T → Reply T) → Option (T → Reply T)
  nth position [] = none
  nth zero (h ∷ hs) = some h
  nth (suc position) (h ∷ hs) = nth position hs

  -- A call of `next`. A handler's own position is past before it runs.
  unfoldable pub next : List (T → Reply T) → T → ℕ → ℕ → Reply T → Outcome T
  next chain data_ zero position reply = out_of_fuel
  next chain data_ (suc fuel) position (raises error) = failed error data_
  next chain data_ (suc fuel) position is_silent = pending
  next chain data_ (suc fuel) position (passes d) = elim (nth position chain) [
    | none ↦ called_back d
    | some h ↦ next chain data_ fuel (suc position) (h d)
  ]
  next chain data_ (suc fuel) position passes_nothing = elim (nth position chain) [
    | none ↦ called_back data_
    | some h ↦ next chain data_ fuel (suc position) (h data_)
  ]

  -- The function that `done` returns, on fuel for one call of `next` more than the chain has handlers.
  unfoldable pub done : List (T → Reply T) → T → Outcome T
  done chain data_ = next chain data_ (suc (length chain)) 0 (passes data_)
