-- ===== src/Service/Migration/Arguments/Form.antt =====
-- agent/cg-agent/src/service/migration.rs: which start arguments make a request.
use cyber_guard_enterprise.Prelude.{
  ◌≡◌, ◌≢◌, ◌↔◌, refl, sym, ap, subst, ◌∙◌, List, [], ◌∷◌, ◌++◌, Option, none, some, Text, arith,
}
use cyber_guard_enterprise.Prelude.Results.{ok, ◌>>=◌, >>=-ok}
use cyber_guard_enterprise.Service.Migration.Arguments.{
  Choice, Texts, Request, insert, Argument, choose, trust, migrate_legacy, trust_anchor_sha256,
  parse_argument, take_argument, parse_loop, requested, parse_start_arguments,
}
use cyber_guard_enterprise.Service.Migration.Arguments.Words.{
  word, Gives, insert_all, Asks, Reads, parse_argument-Reads, Reads-parse_argument, nothing,
  a_choice, a_fingerprint,
}

-- The choice of a loop, from the one given before and those that its arguments give.
abbrev Chosen : Option Choice → List Choice → Option Choice → Type 0
Chosen none [] r = r ≡ none
Chosen none (c ∷ []) r = r ≡ some c
Chosen none (c ∷ d ∷ cs) r = ⊥
Chosen (some g) [] r = r ≡ some g
Chosen (some g) (c ∷ cs) r = ⊥

choose_first :
    (c : Choice) (cs : List Choice) (r : Option Choice)
    → Chosen (some c) cs r
    → Chosen none (c ∷ cs) r
choose_first c [] r h = h
choose_first c (d ∷ cs) r h = h

later_choice :
    (c : Choice) (cs : List Choice) (r : Option Choice)
    → Chosen none (c ∷ cs) r
    → Chosen (some c) cs r
later_choice c [] r h = h
later_choice c (d ∷ cs) r h = h

Collects : Texts → Option Choice → Texts → Option Choice × Texts → Type 0
Collects arguments choice set (r, set') =
    (cs : List Choice) × (fs : Texts) × Gives arguments cs fs
    × Chosen choice cs r
    × (set' ≡ insert_all fs set)

take-Collects :
    (a : Text) (arguments : Texts) (x : Argument) (choice : Option Choice) (set : Texts)
    (out : Option Choice × Texts)
    → Reads a x
    → ((c : Option Choice) (f : Texts)
        → parse_loop arguments c f ≡ ok out
        → Collects arguments c f out)
    → take_argument x choice set (λ c f. parse_loop arguments c f) ≡ ok out
    → Collects (a ∷ arguments) choice set out
unfolding take_argument Collects
take-Collects a arguments (choose c) none set (r, set') e loop h =
    let (cs, fs, gives, chosen, collected) = loop (some c) set h in
    (
      c ∷ cs,
      fs,
      subst (λ a. Gives (a ∷ arguments) (c ∷ cs) fs) (sym e) (a_choice c arguments cs fs gives),
      choose_first c cs r chosen,
      collected,
    )
take-Collects a arguments (choose c) (some g) set (r, set') e loop h = cc
take-Collects a arguments (trust f) choice set (r, set') (e, fits) loop h =
    let (cs, fs, gives, chosen, collected) = loop choice (insert f set) h in
    (
      cs,
      f ∷ fs,
      subst (λ a. Gives (a ∷ arguments) cs (f ∷ fs)) (sym e)
          (a_fingerprint f arguments cs fs fits gives),
      chosen,
      collected,
    )

parse_loop-Collects :
    (arguments : Texts) (choice : Option Choice) (set : Texts) (out : Option Choice × Texts)
    → parse_loop arguments choice set ≡ ok out
    → Collects arguments choice set out
unfolding parse_loop Collects
parse_loop-Collects [] none set (r, set') h = ([], [], nothing, cc, cc)
parse_loop-Collects [] (some g) set (r, set') h = ([], [], nothing, cc, cc)
parse_loop-Collects (a ∷ arguments) choice set out h =
    let (x, read, rest) = >>=-ok (parse_argument a) _ h in
    take-Collects a arguments x choice set out (parse_argument-Reads a x read)
      (λ c f e. parse_loop-Collects arguments c f out e) rest

Collects-parse_loop :
    (arguments : Texts) (cs : List Choice) (fs : Texts) (choice r : Option Choice) (set : Texts)
    → Gives arguments cs fs
    → Chosen choice cs r
    → parse_loop arguments choice set ≡ ok (r, insert_all fs set)
unfolding parse_loop take_argument
Collects-parse_loop arguments cs fs none r set nothing chosen = rw chosen refl
Collects-parse_loop arguments cs fs (some g) r set nothing chosen = rw chosen refl
Collects-parse_loop arguments cs fs none r set (a_choice c rest cs' fs' gives) chosen =
    rw (Reads-parse_argument (migrate_legacy ++ word c) (choose c) refl)
      (Collects-parse_loop rest cs' fs' (some c) r set gives (later_choice c cs' r chosen))
Collects-parse_loop arguments cs fs (some g) r set (a_choice c rest cs' fs' gives) chosen =
    absurd chosen
Collects-parse_loop arguments cs fs choice r set (a_fingerprint f rest cs' fs' fits gives) chosen =
    rw (Reads-parse_argument (trust_anchor_sha256 ++ f) (trust f) (refl, fits))
      (Collects-parse_loop rest cs' fs' choice r (insert f set) gives chosen)

insert_some : (t : Text) (set : Texts) → insert t set ≢ []
unfolding insert
insert_some t [] e = ground (arith, e)
insert_some t (u ∷ set) e = ground (arith, e)

insert_all_some : (fs set : Texts) → set ≢ [] → insert_all fs set ≢ []
insert_all_some [] set h = h
insert_all_some (f ∷ fs) set h = insert_all_some fs (insert f set) (insert_some f set)

asked :
    (r : Option Choice) (set : Texts) (request : Request)
    → requested (r, set) ≡ ok (some request)
    → (r ≡ some request.choice) × (request.fingerprints ≡ set) × (set ≢ [])
unfolding requested
asked none set request h = cc
asked (some choice) [] request h = cc
asked (some choice) (f ∷ set) request h =
    let same : record { choice = choice; fingerprints = f ∷ set } ≡ request = cc in
    (
      ap (λ (q : Request). some q.choice) same,
      sym (ap (λ (q : Request). q.fingerprints) same),
      λ e. ground (arith, e),
    )

asks :
    (request : Request) (set : Texts)
    → request.fingerprints ≡ set
    → set ≢ []
    → requested (some request.choice, set) ≡ ok (some request)
unfolding requested
asks request [] e h = absurd (h refl)
asks request (f ∷ set) e h =
    ap (λ l. ok (some (record { choice = request.choice; fingerprints = l }))) (sym e)

some_given :
    (a : Text) (arguments : Texts) (request : Request)
    → (parse_loop (a ∷ arguments) none [] >>= requested) ≡ ok (some request)
    → Asks (a ∷ arguments) request
unfolding Collects
some_given a arguments request h =
    let ((r, set), looped, finished) = >>=-ok (parse_loop (a ∷ arguments) none []) requested h in
    let (chosen, fingerprints, filled) = asked r set request finished in
    let (cs, fs, gives, choice, collected) =
      parse_loop-Collects (a ∷ arguments) none [] (r, set) looped in
    record {
      fs = fs;
      gives =
          subst (λ cs. Gives (a ∷ arguments) cs fs) (one_choice cs r request.choice choice chosen)
            gives;
      some_fingerprint = λ none_. filled (collected ∙ ap (λ fs. insert_all fs []) none_);
      collected = fingerprints ∙ collected;
    }
  where
    one_choice :
        (cs : List Choice) (r : Option Choice) (c : Choice)
        → Chosen none cs r
        → r ≡ some c
        → cs ≡ c ∷ []
    one_choice [] r c h e = cc
    one_choice (d ∷ []) r c h e = ground (arith, h, e)
    one_choice (d ∷ d' ∷ cs) r c h e = absurd h

gives_nothing :
    (arguments : Texts) (cs : List Choice) (fs : Texts)
    → Gives arguments cs fs
    → arguments ≡ []
    → cs ≡ []
gives_nothing arguments cs fs nothing e = refl
gives_nothing arguments cs fs (a_choice c rest cs' fs' gives) e = absurd (ground (arith, e))
gives_nothing arguments cs fs (a_fingerprint f rest cs' fs' fits gives) e =
    absurd (ground (arith, e))

insert_all_filled : (fs : Texts) → fs ≢ [] → insert_all fs [] ≢ []
insert_all_filled [] h = h
insert_all_filled (f ∷ fs) h = insert_all_some fs (insert f []) (insert_some f [])

some_asked :
    (a : Text) (arguments : Texts) (request : Request)
    → Asks (a ∷ arguments) request
    → (parse_loop (a ∷ arguments) none [] >>= requested) ≡ ok (some request)
some_asked a arguments request x =
    ap (λ m. m >>= requested)
      (Collects-parse_loop (a ∷ arguments) (request.choice ∷ []) x.fs none (some request.choice) []
        x.gives refl)
    ∙ asks request (insert_all x.fs []) x.collected (insert_all_filled x.fs x.some_fingerprint)

-- The start arguments make a request just when they give one choice, once, and at least one trust
-- anchor, each spelt as a fingerprint, and nothing else; the request has the choice and the set of
-- the fingerprints.
pub parse_start_arguments-Asks :
    (arguments : Texts) (request : Request)
    → (parse_start_arguments arguments ≡ ok (some request)) ↔ Asks arguments request
unfolding parse_start_arguments
parse_start_arguments-Asks [] request = (
  λ h. cc,
  λ x. absurd (ground (arith, gives_nothing [] (request.choice ∷ []) x.fs x.gives refl)),
)
parse_start_arguments-Asks (a ∷ arguments) request =
    (some_given a arguments request, some_asked a arguments request)
