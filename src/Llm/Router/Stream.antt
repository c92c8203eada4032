-- ===== src/Llm/Router/Stream.antt =====
-- The streams of src/llm/llm.router.ts: every stream that is opened is closed again, and what the
-- consumer gets is one link's text.
use docent.Base.{
  ℕ, zero, suc, ◌≡◌, refl, ap, ◌∙◌, ◌≢◌, ◌⊎◌, inl, inr, Option, none, some, List, [], ◌∷◌, ◌++◌,
  append-nil, append_assoc, arith, ltb, if◌then◌else◌, length, take, Text,
}
use docent.Errors.{Thrown, new_error}
use docent.Llm.Types.{CompletionRequest, Script, done, fails, delta, LlmStream}
use docent.Llm.Chain.{ChainLink}
use docent.Llm.Router.{
  failure_of, every_failed, RoutedLink, Event, opened, passed, closed, Ending, ended, stopped,
  failed, relay, Streamed, unknown_outcome, outcome_for, first_pull, deltas, stream,
}

-- From an open position, or from none: a stream is opened only when the one before is closed, text
-- comes only from an open one, and at the end none is open.
abbrev pub ClosesAll : Option ℕ → List Event → Type 0
ClosesAll none [] = Unit
ClosesAll (some i) [] = ⊥
ClosesAll none (opened i ∷ events) = ClosesAll (some i) events
ClosesAll (some _) (opened _ ∷ events) = ⊥
ClosesAll none (passed _ ∷ events) = ⊥
ClosesAll (some i) (passed _ ∷ events) = ClosesAll (some i) events
ClosesAll none (closed _ ∷ events) = ⊥
ClosesAll (some i) (closed j ∷ events) = (i ≡ j) × ClosesAll none events

-- The text that the consumer got.
abbrev texts_of : List Event → List Text
texts_of [] = []
texts_of (opened _ ∷ events) = texts_of events
texts_of (passed text ∷ events) = text ∷ texts_of events
texts_of (closed _ ∷ events) = texts_of events

texts_of-append : (xs ys : List Event) → texts_of (xs ++ ys) ≡ texts_of xs ++ texts_of ys
texts_of-append [] ys = refl
texts_of-append (opened _ ∷ xs) ys = texts_of-append xs ys
texts_of-append (passed text ∷ xs) ys = ap (λ (ts : List Text). text ∷ ts) (texts_of-append xs ys)
texts_of-append (closed _ ∷ xs) ys = texts_of-append xs ys

module _ (Number : Type 0) where
  -- All the text of a stream, and how it ends for a consumer with so many calls.
  abbrev script_texts : Script Number → List Text
  script_texts done = []
  script_texts (fails error) = []
  script_texts (delta text script) = text ∷ script_texts script

  abbrev script_ending : Script Number → Ending
  script_ending done = ended
  script_ending (fails error) = failed error
  script_ending (delta text script) = script_ending script

  done-ne-fails : (error : Thrown) → ¬ (◌≡◌ {A = Script Number} done (fails error))
  done-ne-fails error h = cc

  delta-ne-fails :
      (text : Text) (rest : Script Number) (error : Thrown)
      → ¬ (◌≡◌ {A = Script Number} (delta text rest) (fails error))
  delta-ne-fails text rest error h = cc

  relay-ClosesAll :
      (i demand : ℕ) (script : Script Number) (rest : List Event)
      → ClosesAll none rest
      → ClosesAll (some i) ((relay Number demand script).0 ++ (closed i ∷ rest))
  unfolding relay
  relay-ClosesAll i zero script rest h = (refl, h)
  relay-ClosesAll i (suc demand) done rest h = (refl, h)
  relay-ClosesAll i (suc demand) (fails error) rest h = (refl, h)
  relay-ClosesAll i (suc demand) (delta text script) rest h = relay-ClosesAll i demand script rest h

  relay-texts :
      (demand : ℕ) (script : Script Number)
      → texts_of (relay Number demand script).0 ≡ take demand (script_texts script)
  unfolding relay
  relay-texts zero script = refl
  relay-texts (suc demand) done = refl
  relay-texts (suc demand) (fails error) = refl
  relay-texts (suc demand) (delta text script) =
      ap (λ (ts : List Text). text ∷ ts) (relay-texts demand script)

  relay-ending :
      (demand : ℕ) (script : Script Number)
      → (relay Number demand script).1
        ≡ (if ltb (length (script_texts script)) demand then script_ending script else stopped)
  unfolding relay
  relay-ending zero script = ground arith
  relay-ending (suc demand) done = ground arith
  relay-ending (suc demand) (fails error) = ground arith
  relay-ending (suc demand) (delta text script) = relay-ending demand script ∙ (ground arith)

  module _ (request : CompletionRequest) where
    first_pull-ClosesAll :
        (position : ℕ) (failures : List Text) (demand : ℕ) (chain : ChainLink)
        (candidate : LlmStream Number) (further : List Text → Streamed Number)
        (script : Script Number)
        → ((failures' : List Text) → ClosesAll none (further failures').events)
        → ClosesAll none
            (first_pull Number position failures demand chain candidate further script).events
    unfolding first_pull
    first_pull-ClosesAll position failures demand chain candidate further done h = (refl, tt)
    first_pull-ClosesAll position failures demand chain candidate further (fails error) h =
        (refl, h (failures ++ (failure_of chain error ∷ [])))
    first_pull-ClosesAll position failures demand chain candidate further (delta text script) h =
        relay-ClosesAll position demand script [] tt

    deltas-ClosesAll :
        (position : ℕ) (failures : List Text) (demand : ℕ) (links : List (RoutedLink Number))
        → ClosesAll none (deltas Number request position failures demand links).events
    unfolding deltas
    deltas-ClosesAll position failures demand [] = tt
    deltas-ClosesAll position failures demand (link ∷ links) =
        first_pull-ClosesAll position failures demand link.chain (link.provider.stream request)
          (λ failures'. deltas Number request (suc position) failures' demand links)
          (link.provider.stream request).script
          (λ failures'. deltas-ClosesAll (suc position) failures' demand links)

    -- Every stream that the router opens is closed before the next is opened and before the
    -- generator is through, also when the consumer stops early and when a stream fails.
    pub stream-ClosesAll :
        (links : List (RoutedLink Number)) (demand : ℕ)
        → ClosesAll none (stream Number links request demand).events
    unfolding stream
    stream-ClosesAll links zero = tt
    stream-ClosesAll links (suc demand) = deltas-ClosesAll 0 [] demand links

    abbrev script_of : RoutedLink Number → Script Number
    script_of link = (link.provider.stream request).script

    -- The links all throw at the first call of `next()`, with these descriptions.
    abbrev AllFailFirst : List (RoutedLink Number) → List Text → Type 0
    AllFailFirst [] [] = Unit
    AllFailFirst [] (_ ∷ _) = ⊥
    AllFailFirst (_ ∷ _) [] = ⊥
    AllFailFirst (link ∷ links) (failure ∷ failures) =
        ((error : Thrown) × (script_of link ≡ fails error)
          × (failure ≡ failure_of link.chain error))
        × AllFailFirst links failures

    -- One link serves the whole stream: the first that does not throw at its first `next()`.
    abbrev ServedBy :
        List (RoutedLink Number) → List Text → ℕ → RoutedLink Number → Streamed Number → Type 0
    ServedBy before failures demand link s =
        AllFailFirst before failures
        × ((error : Thrown) → script_of link ≢ fails error)
        × (texts_of s.events ≡ take demand (script_texts (script_of link)))
        × (s.ending ≡ (
            if ltb (length (script_texts (script_of link))) demand
            then script_ending (script_of link)
            else stopped))
        × ((pulls : ℕ) × (s.outcome
              ≡ outcome_for Number (link.provider.stream request) failures pulls))

    abbrev pub IsStream : List (RoutedLink Number) → ℕ → Streamed Number → Type 0
    IsStream links demand s =
        ((before after : List (RoutedLink Number)) × (link : RoutedLink Number) × (failures : List
            Text)
          × (links ≡ before ++ (link ∷ after))
          × ServedBy before failures demand link s)
        ⊎ ((failures : List Text) × AllFailFirst links failures
            × (texts_of s.events ≡ [])
            × (s.ending ≡ failed (new_error (every_failed failures)))
            × (s.outcome ≡ unknown_outcome Number (every_failed failures)))

    AllFailFirst-append :
        (links : List (RoutedLink Number)) (failures : List Text) (link : RoutedLink Number)
        (error : Thrown)
        → AllFailFirst links failures
        → script_of link ≡ fails error
        → AllFailFirst (links ++ (link ∷ [])) (failures ++ (failure_of link.chain error ∷ []))
    AllFailFirst-append [] [] link error all h = ((error, h, refl), tt)
    AllFailFirst-append [] (_ ∷ _) link error all h = absurd all
    AllFailFirst-append (_ ∷ _) [] link error all h = absurd all
    AllFailFirst-append (_ ∷ links) (_ ∷ failures) link error (first, all) h =
        (first, AllFailFirst-append links failures link error all h)

    -- The events of a link that failed add no text.
    skip-IsStream :
        (position : ℕ) (links : List (RoutedLink Number)) (demand : ℕ) (s : Streamed Number)
        → IsStream links demand s
        → IsStream links demand (record s { events = opened position ∷ closed position ∷ s.events })
    skip-IsStream position links demand s (inl h) = inl h
    skip-IsStream position links demand s (inr h) = inr h

    first_pull-IsStream :
        (before after : List (RoutedLink Number)) (position : ℕ) (failures : List Text) (demand : ℕ)
        (link : RoutedLink Number) (further : List Text → Streamed Number) (script : Script Number)
        → AllFailFirst before failures
        → script_of link ≡ script
        → ((failures' : List Text)
            → AllFailFirst (before ++ (link ∷ [])) failures'
            → IsStream (before ++ (link ∷ after)) (suc demand) (further failures'))
        → IsStream (before ++ (link ∷ after)) (suc demand) (
            first_pull Number position failures demand link.chain
              (link.provider.stream request)
              further
              script)
    unfolding first_pull
    first_pull-IsStream before after position failures demand link further done all e h = inl (
      before,
      after,
      link,
      failures,
      refl,
      (all, rw e (λ error. done-ne-fails error), rw e, rw e (ground arith), (1, refl)),
    )
    first_pull-IsStream before after position failures demand link further (fails error) all e h =
        skip-IsStream position (before ++ (link ∷ after)) (suc demand)
          (further (failures ++ (failure_of link.chain error ∷ [])))
          (h _ (AllFailFirst-append before failures link error all e))
    first_pull-IsStream before after position failures demand link further (delta text script) all e
          h =
        inl (
          before,
          after,
          link,
          failures,
          refl,
          (
            all,
            rw e (λ error. delta-ne-fails text script error),
            rw e (
                ap (λ (ts : List Text). text ∷ ts)
                  (texts_of-append (relay Number demand script).0 (closed position ∷ [])
                    ∙ append-nil (texts_of (relay Number demand script).0)
                    ∙ relay-texts demand script)),
            rw e (relay-ending demand script ∙ (ground arith)),
            (suc (relay Number demand script).2, refl),
          ),
        )

    deltas-IsStream :
        (before : List (RoutedLink Number)) (position : ℕ) (failures : List Text) (demand : ℕ)
        (links : List (RoutedLink Number))
        → AllFailFirst before failures
        → IsStream
            (before ++ links)
            (suc demand)
            (deltas Number request position failures demand links)
    unfolding deltas
    deltas-IsStream before position failures demand [] all =
        inr (failures, rw append-nil all, refl, refl, refl)
    deltas-IsStream before position failures demand (link ∷ links) all =
        first_pull-IsStream before links position failures demand link
          (λ failures'. deltas Number request (suc position) failures' demand links)
          (script_of link) all refl
          λ failures' all'.
            rw (append_assoc before (link ∷ []) links) at
              (deltas-IsStream (before ++ (link ∷ [])) (suc position) failures' demand links all')

    -- A consumer that makes at least one call gets text from one link only, the first that does
    -- not throw at its first call: as many of its texts as it asks for, its ending, and an outcome
    -- that is that link's with the reason of the failures before. If every link throws at its
    -- first call, the stream throws all their descriptions and has passed nothing on.
    pub stream-IsStream :
        (links : List (RoutedLink Number)) (demand : ℕ)
        → IsStream links (suc demand) (stream Number links request (suc demand))
    unfolding stream
    stream-IsStream links demand = deltas-IsStream [] 0 [] demand links tt
