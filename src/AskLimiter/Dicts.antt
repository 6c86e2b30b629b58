-- ===== src/AskLimiter/Dicts.antt =====
-- What forgetting idle sessions does to the record of one session.
use agent_presentator.Base.{ℕ, ◌≡◌, refl, String, none, List, [], ◌∷◌, arith, eq_iff, option_or}
use agent_presentator.Base.Dict
use agent_presentator.Base.Dict.{Dict, dict_laws}
use agent_presentator.AskLimiter.{AskTicket, drop_old, forget_idle}

-- The record of a session, with the empty one for a session that has none.
abbrev pub asked_by : String → Dict (List ℕ) → List ℕ
asked_by session d = option_or (Dict.lookup session d) []

-- Each session has one record: Python's dict holds a key once.
abbrev pub HasOneEach {ℓ} : {V : Type ℓ} → Dict V → Type ℓ
HasOneEach {V} [] = Unit
HasOneEach {V} ((k, v) ∷ d) = (Dict.lookup k d ≡ none) × HasOneEach d

pub lookup-forget_idle-none :
    (window now : ℕ) (answering : Dict AskTicket) (d : Dict (List ℕ)) (session : String)
    → Dict.lookup session d ≡ none
    → Dict.lookup session (forget_idle window now answering d) ≡ none
unfolding forget_idle Dict.lookup
lookup-forget_idle-none window now answering [] session h = refl
lookup-forget_idle-none window now answering ((k, asked) ∷ d) session h =
    ground (arith, lookup-forget_idle-none window now answering d session)

-- Forgetting leaves to each session the questions that are still in the window.
pub asked_by-forget_idle :
    (window now : ℕ) (answering : Dict AskTicket) (d : Dict (List ℕ)) (session : String)
    → HasOneEach d
    → asked_by session (forget_idle window now answering d)
      ≡ drop_old window now (asked_by session d)
unfolding forget_idle Dict.lookup
asked_by-forget_idle window now answering [] session h = refl
asked_by-forget_idle window now answering ((k, asked) ∷ d) session h = ground (
  arith,
  eq_iff k session,
  asked_by-forget_idle window now answering d session,
  lookup-forget_idle-none window now answering d k,
)

pub forget_idle-HasOneEach :
    (window now : ℕ) (answering : Dict AskTicket) (d : Dict (List ℕ))
    → HasOneEach d
    → HasOneEach (forget_idle window now answering d)
unfolding forget_idle
forget_idle-HasOneEach window now answering [] h = tt
forget_idle-HasOneEach window now answering ((k, asked) ∷ d) h = ground (
  arith,
  forget_idle-HasOneEach window now answering d,
  lookup-forget_idle-none window now answering d k,
)

module _ {ℓ} {V : Type ℓ} where
  pub insert-HasOneEach :
      (k : String) (v : V) (d : Dict V) → HasOneEach d → HasOneEach (Dict.insert k v d)
  unfolding Dict.insert Dict.lookup
  insert-HasOneEach k v [] h = (refl, tt)
  insert-HasOneEach k v ((j, w) ∷ d) h =
      ground
        (arith, eq_iff j k, eq_iff k j, insert-HasOneEach k v d h.1, Dict.lookup-insert k j v d)

  pub set_default-HasOneEach :
      (k : String) (v : V) (d : Dict V) → HasOneEach d → HasOneEach (Dict.set_default k v d)
  unfolding Dict.set_default
  set_default-HasOneEach k v d h = ground (arith, insert-HasOneEach k v d h)

  pub erase-HasOneEach : (k : String) (d : Dict V) → HasOneEach d → HasOneEach (Dict.erase k d)
  unfolding Dict.erase
  erase-HasOneEach k [] h = tt
  erase-HasOneEach k ((j, w) ∷ d) h =
      ground (arith, eq_iff j k, eq_iff k j, erase-HasOneEach k d h.1, Dict.lookup-erase k j d)
