-- ===== src/Executor/Interleaving/Leaks.antt =====
-- No interleaving of the calls leaks a connection.
use querylynx.Base.{
  ℕ, Bool, true, false, not, ◌&&◌, ◌||◌, ◌==◌, Option, none, some, List, [], ◌∷◌, ◌≡◌, refl, sym,
  subst, ◌∙◌, arith, Bool-cases, inl, inr, Result, ok, err,
}
use querylynx.Strings.{Text}
use querylynx.Strings.Equal.{text_eq_refl}
use querylynx.Dict.{get, put, remove, get-remove}
use querylynx.Connector.{Ref, Backend, DialectError}
use querylynx.Executor.{
  Service, new_service, closed, close_old, register_connection, close_found, close_connection,
}
use querylynx.Executor.Connections.{
  holds, IsOneToOne, get-holds, remove-missing, IsOneToOne-remove, holds-remove,
}
use querylynx.Executor.Leaks.{Pools, Opens, new_connector-Opens}
use querylynx.Executor.Interleaving.{
  Calls, Take, here, there, Step, make_connector, fail_connector, register, close, look_up,
  introspect, validate, execute, give_up, idle, Runs, stay, then,
}

-- No connector waits twice.
abbrev pub IsOnce : List (Text × Ref) → Type 0
IsOnce [] = Unit
IsOnce ((id, c) ∷ m) = (holds m c ≡ false) × IsOnce m

swapped : (a b c : Bool) → (a || (b || c)) ≡ (b || (a || c))
swapped a b c = ground arith

gathered : (a b c : Bool) → (a || (b || c)) ≡ ((b || a) || c)
gathered a b c = ground arith

holds-Take :
    {x : Text × Ref} {xs rest : List (Text × Ref)} (r : Ref)
    → Take x xs rest
    → holds xs r ≡ (x.1 == r || holds rest r)
unfolding holds
holds-Take r here = refl
holds-Take {x = x} r (there {y = y} {ys = ys} t) =
    rw (holds-Take r t) (swapped (y.1 == r) (x.1 == r) (holds ys r))

IsOnce-Take :
    {x : Text × Ref} {xs rest : List (Text × Ref)}
    → Take x xs rest
    → IsOnce xs
    → (holds rest x.1 ≡ false) × IsOnce rest
unfolding holds
IsOnce-Take here h = h
IsOnce-Take {x = x} (there {y = y} {ys = ys} t) (fresh, h) =
    let (gone, once) = IsOnce-Take t h in
    let apart : (x.1 == y.1 || holds ys y.1) ≡ false = sym (holds-Take y.1 t) ∙ fresh in
    (ground arith, (ground arith, once))

itself : (c : ℕ) (b : Bool) → (c == c || b) ≡ true
itself c b = ground arith

both_false : (a b : Bool) → (a || b) ≡ false → (a ≡ false) × (b ≡ false)
both_false a b h = ground arith

equal : (o r : ℕ) → (o == r) ≡ true → o ≡ r
equal o r h = ground arith

-- What is left when the connector `o` of the map is closed, which none of the others is.
closing :
    (mapped others : ℕ → Bool) (o r : ℕ)
    → others o ≡ false
    → ((mapped r || others r) && not (o == r)) ≡ ((mapped r && not (o == r)) || others r)
closing mapped others o r h = elim (Bool-cases (o == r)) [
  | inl e ↦
      let gone : others r ≡ false = subst (λ x. others x ≡ false) (equal o r e) h in
      rw e (rw gone (gone_both (mapped r)))
  | inr e ↦ rw e (kept_both (mapped r) (others r))
]
  where
    gone_both : (a : Bool) → ((a || false) && not true) ≡ ((a && not true) || false)
    gone_both a = ground arith

    kept_both : (a b : Bool) → ((a || b) && not false) ≡ ((a && not false) || b)
    kept_both a b = ground arith

-- A connector that is none of the mapped ones joins those that wait, or leaves them for the map.
waiting_apart :
    (mapped others : ℕ → Bool) (c r : ℕ)
    → mapped c ≡ false
    → (mapped r && others r) ≡ false
    → (mapped r && (c == r || others r)) ≡ false
waiting_apart mapped others c r h apart = elim (Bool-cases (c == r)) [
  | inl e ↦ rw e (rw (subst (λ x. mapped x ≡ false) (equal c r e) h) refl)
  | inr e ↦ rw e apart
]

mapped_apart :
    (mapped others : ℕ → Bool) (c r : ℕ)
    → others c ≡ false
    → (mapped r && (c == r || others r)) ≡ false
    → ((c == r || mapped r) && others r) ≡ false
mapped_apart mapped others c r h apart = elim (Bool-cases (c == r)) [
  | inl e ↦ rw e (rw (subst (λ x. others x ≡ false) (equal c r e) h) refl)
  | inr e ↦ rw e (rw e at apart)
]

fewer_apart : (a b c : Bool) → (a && c) ≡ false → ((a && b) && c) ≡ false
fewer_apart a b c h = ground arith

left_out : (a b : Bool) → (a && b) ≡ false → b ≡ true → a ≡ false
left_out a b h k = ground arith

right_out : (a b : Bool) → (a && b) ≡ false → a ≡ true → b ≡ false
right_out a b h k = ground arith

module _ {W : Type 0} {postgres : Backend W} (pools : Pools postgres) where
  -- Exactly the connectors of the map and those that wait for it are open; none of them stands in both,
  -- and none twice in one.
  abbrev pub IsAccounted : Service → W → List (Text × Ref) → Type 0
  IsAccounted s w opening =
      IsOneToOne s.conns
      × IsOnce opening
      × ((r : Ref) → (holds s.conns r && holds opening r) ≡ false)
      × ((r : Ref) → pools.is_open w r ≡ (holds s.conns r || holds opening r))

  same-IsAccounted :
      (s : Service) (w w' : W) (opening : List (Text × Ref))
      → ((r : Ref) → pools.is_open w' r ≡ pools.is_open w r)
      → IsAccounted s w opening
      → IsAccounted s w' opening
  same-IsAccounted s w w' opening same (one, once, apart, tight) =
      (one, once, apart, λ r. same r ∙ tight r)

  made-IsAccounted :
      (s : Service) (w : W) (opening : List (Text × Ref)) (id : Text)
      (new : Result DialectError Ref × W) (c : Ref) (w' : W)
      → Opens pools w new
      → new ≡ (ok c, w')
      → IsAccounted s w opening
      → IsAccounted s w' ((id, c) ∷ opening)
  unfolding holds
  made-IsAccounted s w opening id new c w' opens e (one, once, apart, tight) =
      let (fresh, now) : (pools.is_open w c ≡ false)
          × ((r : Ref) → pools.is_open w' r ≡ (c == r || pools.is_open w r)) =
        subst (Opens pools w) e opens in
      let (unmapped, new_there) =
        both_false (holds s.conns c) (holds opening c) (sym (tight c) ∙ fresh) in
      (
        one,
        (new_there, once),
        λ r. waiting_apart (holds s.conns) (holds opening) c r unmapped (apart r),
        λ r. now r ∙ rw (tight r) (swapped (c == r) (holds s.conns r) (holds opening r)),
      )

  failed-IsAccounted :
      (s : Service) (w : W) (opening : List (Text × Ref)) (new : Result DialectError Ref × W)
      (e : DialectError) (w' : W)
      → Opens pools w new
      → new ≡ (err e, w')
      → IsAccounted s w opening
      → IsAccounted s w' opening
  failed-IsAccounted s w opening new e w' opens eq (one, once, apart, tight) =
      same-IsAccounted s w w' opening (subst (Opens pools w) eq opens) (one, once, apart, tight)

  registered-IsAccounted :
      (s : Service) (w : W) (opening rest : List (Text × Ref)) (id : Text) (c : Ref)
      (old : Option Ref)
      → get id s.conns ≡ old
      → Take (id, c) opening rest
      → IsAccounted s w opening
      → IsAccounted (record { conns = put id c s.conns }) (close_old postgres old w) rest
  unfolding close_old put holds
  registered-IsAccounted s w opening rest id c none e t (one, once, apart, tight) =
      let (gone, once_left) = IsOnce-Take t once in
      let taken : holds opening c ≡ true = holds-Take c t ∙ itself c (holds rest c) in
      let unmapped = left_out (holds s.conns c) (holds opening c) (apart c) taken in
      (
        (
          get-remove id id s.conns ∙ rw (text_eq_refl id),
          rw (remove-missing id s.conns e) unmapped,
          IsOneToOne-remove id s.conns one,
        ),
        once_left,
        λ r.
            rw (remove-missing id s.conns e) (
              mapped_apart (holds s.conns) (holds rest) c r gone
                (rw (holds-Take r t) at (apart r))),
        λ r.
            rw (remove-missing id s.conns e)
              (tight r ∙ rw (holds-Take r t) (gathered (holds s.conns r) (c == r) (holds rest r))),
      )
  registered-IsAccounted s w opening rest id c (some o) e t (one, once, apart, tight) =
      let (gone, once_left) = IsOnce-Take t once in
      let taken : holds opening c ≡ true = holds-Take c t ∙ itself c (holds rest c) in
      let unmapped = left_out (holds s.conns c) (holds opening c) (apart c) taken in
      let removed = holds-remove id s.conns o in
      let not_waiting =
        right_out (holds s.conns o) (holds opening o) (apart o) (get-holds id s.conns o e) in
      (
        (
          get-remove id id s.conns ∙ rw (text_eq_refl id),
          removed c one e ∙ rw unmapped refl,
          IsOneToOne-remove id s.conns one,
        ),
        once_left,
        λ r. rw (removed r one e) (
            mapped_apart (λ x. holds s.conns x && not (o == x)) (holds rest) c r gone
              (fewer_apart (holds s.conns r) (not (o == r)) (c == r || holds rest r)
                (rw (holds-Take r t) at (apart r)))),
        λ r.
            let left_open : (pools.is_open w r && not (o == r))
                ≡ ((holds s.conns r && not (o == r)) || holds opening r) =
              rw (tight r) (closing (holds s.conns) (holds opening) o r not_waiting) in
            pools.close_closes o w r
            ∙ left_open
            ∙ rw (removed r one e, holds-Take r t)
                (gathered (holds s.conns r && not (o == r)) (c == r) (holds rest r)),
      )

  answered-IsAccounted :
      (s : Service) (opening : List (Text × Ref)) (r : Option Text × W)
      → IsAccounted s r.1 opening
      → IsAccounted (closed r s).1 (closed r s).2 opening
  unfolding closed
  answered-IsAccounted s opening (none, w) h = h
  answered-IsAccounted s opening (some e, w) h = h

  closed-IsAccounted :
      (s : Service) (w : W) (opening : List (Text × Ref)) (id : Text) (found : Option Ref)
      → get id s.conns ≡ found
      → IsAccounted s w opening
      → IsAccounted
          (close_found postgres s w id found).1
          (close_found postgres s w id found).2
          opening
  unfolding close_found
  closed-IsAccounted s w opening id none e h = h
  closed-IsAccounted s w opening id (some o) e (one, once, apart, tight) =
      let removed = holds-remove id s.conns o in
      let not_waiting =
        right_out (holds s.conns o) (holds opening o) (apart o) (get-holds id s.conns o e) in
      answered-IsAccounted (record { conns = remove id s.conns }) opening (postgres.close o w)
        (
          IsOneToOne-remove id s.conns one,
          once,
          λ r.
              rw (removed r one e)
                (fewer_apart (holds s.conns r) (not (o == r)) (holds opening r) (apart r)),
          λ r.
              let left_open : (pools.is_open w r && not (o == r))
                  ≡ ((holds s.conns r && not (o == r)) || holds opening r) =
                rw (tight r) (closing (holds s.conns) (holds opening) o r not_waiting) in
              pools.close_closes o w r ∙ left_open ∙ rw (removed r one e) refl,
        )

  step-IsAccounted :
      (f g : Calls W)
      → Step postgres f g
      → IsAccounted f.service f.world f.opening
      → IsAccounted g.service g.world g.opening
  step-IsAccounted f g (make_connector id c w ctx dialect dsn given e) h =
      made-IsAccounted f.service f.world f.opening id _ c w
        (new_connector-Opens pools ctx f.world dialect _) e h
  step-IsAccounted f g (fail_connector e w ctx dialect dsn eq) h =
      failed-IsAccounted f.service f.world f.opening _ e w
        (new_connector-Opens pools ctx f.world dialect _) eq h
  step-IsAccounted f g (register id c rest t) h =
      unfold register_connection in
      registered-IsAccounted f.service f.world f.opening rest id c (get id f.service.conns) refl t h
  step-IsAccounted f g (close id) h =
      unfold close_connection in
      closed-IsAccounted f.service f.world f.opening id (get id f.service.conns) refl h
  step-IsAccounted f g (look_up id c e) h = h
  step-IsAccounted f g (introspect c rest ctx t) h =
      same-IsAccounted f.service f.world _ f.opening (pools.introspect_same ctx c f.world) h
  step-IsAccounted f g (validate c rest ctx query t) h =
      same-IsAccounted f.service f.world _ f.opening (pools.validate_same ctx c f.world query) h
  step-IsAccounted f g (execute c rest ctx safe t) h =
      same-IsAccounted f.service f.world _ f.opening (pools.execute_same ctx c f.world safe) h
  step-IsAccounted f g (give_up c rest t) h = h

  Runs-IsAccounted_from :
      (f g : Calls W)
      → Runs postgres f g
      → IsAccounted f.service f.world f.opening
      → IsAccounted g.service g.world g.opening
  Runs-IsAccounted_from f g stay h = h
  Runs-IsAccounted_from f g (then {g = between} step runs) h =
      Runs-IsAccounted_from between g runs (step-IsAccounted f between step h)

  -- Let the backend open, close and keep its connections as Pools says, and let none be open at first. In
  -- whatever order the steps of the executor's calls interleave, at any time exactly the connectors in
  -- its map and those that an OpenConnection has made and not yet registered are open; each of them
  -- stands in one place, once. So a connection leaks in no interleaving: when no OpenConnection is
  -- under way, the open connections are those of the map.
  pub Runs-IsAccounted :
      (w : W) (f : Calls W)
      → ((r : Ref) → pools.is_open w r ≡ false)
      → Runs postgres (idle new_service w) f
      → IsAccounted f.service f.world f.opening
  unfolding new_service holds
  Runs-IsAccounted w f none_open runs =
      Runs-IsAccounted_from (idle new_service w) f runs (tt, tt, λ r. refl, λ r. none_open r)
