-- ===== src/Connection/Closing.antt =====
-- What the user sees of a connection (src/high/connection_engine.hpp): its callbacks, and the one
-- close.
use socketpp.Base.{◌&&◌, not, ◌≡◌, Bool, true, false, none, List, [], ◌∷◌, ◌++◌, if◌then◌else◌}
use socketpp.Connection.{Connection, Callback, on_data, on_close}
use socketpp.Connection.System.{System}

module _ {ℓ} {A : Type ℓ} where
  -- Calls of `on_data_` alone.
  abbrev pub AllData : List (Callback A) → Type 0
  AllData [] = Unit
  AllData (on_data d ∷ cs) = AllData cs
  AllData (on_close ∷ cs) = ⊥

  -- What an open connection has submitted, and what a closed one has.
  abbrev pub Submitted : Bool → Bool → List (Callback A) → Type ℓ
  Submitted closed with_close cs =
      (before : List (Callback A)) × AllData before
      × (cs ≡ (if closed && with_close then before ++ on_close ∷ [] else before))

  pub record Inv (c : Connection A) : Type ℓ where
    pub submitted : Submitted c.closed c.has_on_close c.callbacks
    pub resources : (c.socket_open ≡ not c.closed) × (c.closed ≡ true → c.interest ≡ none)

  -- What the operations that neither close nor deliver keep.
  record Silent (c c' : Connection A) : Type ℓ where
    same : c'.callbacks ≡ c.callbacks
    flag : c'.closed ≡ c.closed
    handler : c'.has_on_close ≡ c.has_on_close
    socket : c'.socket_open ≡ c.socket_open
    none_new : c.closed ≡ true → c.interest ≡ none → c.socket_open ≡ false → c'.interest ≡ none
