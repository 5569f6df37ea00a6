-- ===== src/Net/Dgram/Construct.antt =====
-- The constructors of datagram sockets keep no handle when they throw.
use mart_common.Prelude.{
  ℕ, ◌≡◌, ◌≢◌, inl, inr, refl, sym, ap, ◌∙◌, [], ◌∷◌, Bool, true, false, Option, none, some,
  if◌then◌else◌, Option-cases, ℕ_discrete, arith,
}
use mathlib.Core.Path.{subst}
use mart_common.Net.Results.{ErrorCode, success, failure}
use mart_common.Net.Socket.Ownership.{result-cases}
use mart_common.Net.Enums.{Domain, datagram, default_protocol}
use mart_common.Net.Native.{System, OpensNew, OpensAndCloses, fd}
use mart_common.Net.PortLayer
use mart_common.Net.PortLayer.{close_socket}
use mart_common.Net.Socket
use mart_common.Net.Socket.{PortLayer, IsSystem, Process}
use mart_common.Net.Socket.System.{port_layer, port_layer-IsSystem, close_socket-still}
use mart_common.Net.Transfer.{Memory}
use mart_common.Net.Throws.{Outcome, ok, thrown, aborted, ⊤, ◌>>◌}
use mart_common.Text.{Bytes, codes}
use mart_common.Net.HighLevel.{last_error, Run, alone, is_valid, try_close}
use mart_common.Net.Dgram.{EndpointType}
use mart_common.Net.Dgram.Throwing.{bind, connect, make, finished, make_connected}

module _ {W : Type 0} (L : PortLayer W) (S : IsSystem L) where
  -- A flag changes neither the handle of the object nor the open ones.
  uncached_keeps :
      (p : Process W) (b : Bool) (k : ℕ)
      → let q = (Socket.set_blocking_uncached L p 0 b).1 in
        ((q.socks 0).handle ≡ (p.socks 0).handle) × (L.is_open q.system k ≡ L.is_open p.system k)
  unfolding Socket.set_blocking_uncached
  uncached_keeps p b k = ground (arith, S.flags_only p.system (p.socks 0).handle b k)

module _ {W : Type 0} (Y : System W) (O : OpensAndCloses Y) (d : Domain) where
  abbrev opening : PortLayer W
  opening = port_layer Y d datagram default_protocol

  abbrev opening-IsSystem : IsSystem opening
  opening-IsSystem = port_layer-IsSystem Y d datagram default_protocol O

  -- A new object has the only new handle, or there is none.
  open-OpensNew :
      (w : W)
      → let p = (Socket.open_ opening (alone Socket.invalid w) 0).1 in
        OpensNew Y w (p.socks 0).handle p.system
  unfolding Socket.open_ Socket.from_handle ℕ_discrete
  open-OpensNew w = elim (result-cases (PortLayer.socket Y d datagram default_protocol w).0) [
    | inl (h, r) ↦
        let S = opening-IsSystem in
        let (new, opened, rest) = S.opens_new w h r in
        subst (λ p. OpensNew Y w (p.socks 0).handle p.system) (sym (done h r))
          (subst (λ o. OpensNew Y w o (flagged h).system)
            (sym (uncached_keeps opening S (started h) true 0).0)
            (
              new,
              (uncached_keeps opening S (started h) true h).1 ∙ opened,
              λ k ne. (uncached_keeps opening S (started h) true k).1 ∙ rest k ne,
            ))
    | inr (c, r) ↦
        subst (λ p. OpensNew Y w (p.socks 0).handle p.system) (sym (refused c r))
          (opening-IsSystem.fails_still w c r)
  ]
    where
      after : W
      after = (PortLayer.socket Y d datagram default_protocol w).1

      started : ℕ → Process W
      started h =
          Socket.put opening (alone Socket.invalid after) 0
            (record { handle = some h; blocking = true })

      flagged : ℕ → Process W
      flagged h = (Socket.set_blocking_uncached opening (started h) 0 true).1

      done :
          (h : ℕ)
          → (PortLayer.socket Y d datagram default_protocol w).0 ≡ success h
          → (Socket.open_ opening (alone Socket.invalid w) 0).1 ≡ flagged h
      done h r = rw (r, Socket.open_) refl

      refused :
          (c : ErrorCode)
          → (PortLayer.socket Y d datagram default_protocol w).0 ≡ failure c
          → (Socket.open_ opening (alone Socket.invalid w) 0).1
            ≡ Socket.put opening (alone Socket.invalid after) 0 Socket.invalid
      refused c r = rw (r, Socket.open_) refl

module _ {W : Type 0} (Y : System W) (O : OpensAndCloses Y) {E : Type 0} (P : EndpointType E)
    (text : ErrorCode → Bytes) where
  -- What a constructor may do to the handles: a new object has the only new one, and an exception
  -- leaves none behind.
  abbrev pub Clean : W → Outcome (Run W E) × W → Type 0
  Clean w (ok s, v) =
      (h : ℕ) × (s.object.sock.handle ≡ some h) × (s.system ≡ v) × OpensNew Y w (some h) v
  Clean w (thrown e, v) = OpensNew Y w none v
  Clean w (aborted, v) = ⊥

  -- To destroy a socket without a handle closes nothing.
  close_none :
      (t : Run W E) (k : ℕ)
      → t.object.sock.handle ≡ none
      → Y.is_open (try_close Y t).1.system k ≡ Y.is_open t.system k
  unfolding try_close Socket.close
  close_none t k e =
      subst (λ o. Y.is_open (close_socket Y o t.system).1 k ≡ Y.is_open t.system k) (sym e)
        (ap (λ v. Y.is_open v k) (close_socket-still Y none t.system) ∙ O.close_invalid t.system k)

  make-Clean : (m : Memory) (w : W) → Clean w (make Y text P m w)
  unfolding make is_valid Socket.is_valid
  make-Clean m w = elim (Option-cases (p.socks 0).handle) [
    | inl e ↦
        subst (Clean w) (sym (fails e))
          (λ k. close_none r k e ∙ subst (λ o. OpensNew Y w o p.system) e new k)
    | inr (h, e) ↦
        subst (Clean w) (sym (works h e)) (h, e, refl, subst (λ o. OpensNew Y w o p.system) e new)
  ]
    where
      p : Process W
      p = (Socket.open_ (opening Y O P.domain) (alone Socket.invalid w) 0).1

      new : OpensNew Y w (p.socks 0).handle p.system
      new = open-OpensNew Y O P.domain w

      r : Run W E
      r = record {
        object = record { sock = p.socks 0; ep_local = P.default_; ep_remote = P.default_ };
        memory = m;
        system = p.system;
      }

      gone : W
      gone = (try_close Y r).1.system

      choose : Option ℕ → Outcome (Run W E) × W
      choose o =
          if elim o [ none ↦ false | some _ ↦ true ]
          then (ok r, p.system)
          else (thrown (last_error Y text (codes "Could not create socket." ∷ []) r), gone)

      fails :
          (p.socks 0).handle ≡ none
          → make Y text P m w
            ≡ (thrown (last_error Y text (codes "Could not create socket." ∷ []) r), gone)
      fails e = ap choose e

      works : (h : ℕ) → (p.socks 0).handle ≡ some h → make Y text P m w ≡ (ok r, p.system)
      works h e = ap choose e

  -- Neither of the calls on the new object opens or closes anything, or ends the program.
  abbrev Keeps : Outcome ⊤ × Run W E → Run W E → Type 0
  Keeps t s =
      (t.1.object.sock ≡ s.object.sock)
      × ((k : ℕ) → Y.is_open t.1.system k ≡ Y.is_open s.system k)
      × (t.0 ≢ aborted)

  bind-Keeps : (ep : E) (s : Run W E) → Keeps (bind Y text P ep s) s
  unfolding bind PortLayer.bind
  bind-Keeps ep s = (
    ground arith,
    λ k. ground (
      arith,
      O.bind_still s.system (fd s.object.sock.handle) (P.to_sock_addr ep).native
          (PortLayer.native_len (P.to_sock_addr ep).size) k,
    ),
    λ e. ground (arith, e),
  )

  connect-Keeps : (ep : E) (s : Run W E) → Keeps (connect Y text P ep s) s
  unfolding connect PortLayer.connect
  connect-Keeps ep s = (
    ground arith,
    λ k. ground (
      arith,
      O.connect_still s.system (fd s.object.sock.handle) (P.to_sock_addr ep).native
          (PortLayer.native_len (P.to_sock_addr ep).size) k,
    ),
    λ e. ground (arith, e),
  )

  close_own :
      (t : Run W E) (h : ℕ)
      → t.object.sock.handle ≡ some h
      → let v = (try_close Y t).1.system in
        (Y.is_open v h ≡ false) × ((k : ℕ) → k ≢ h → Y.is_open v k ≡ Y.is_open t.system k)
  unfolding try_close Socket.close
  close_own t h e =
      subst
        (λ o.
          let v = (close_socket Y o t.system).1 in
          (Y.is_open v h ≡ false) × ((k : ℕ) → k ≢ h → Y.is_open v k ≡ Y.is_open t.system k))
        (sym e) ((port_layer-IsSystem Y P.domain datagram default_protocol O).closes t.system h)

  -- The constructor with two endpoints: if it succeeds, the object has the only handle that is
  -- open now and was not before; if it throws, just those handles are open that were open before;
  -- and it never ends the program.
  pub make_connected-Clean :
      (local remote : E) (m : Memory) (w : W) → Clean w (make_connected Y text P local remote m w)
  unfolding make_connected finished
  make_connected-Clean local remote m w = finish (make Y text P m w) (make-Clean m w)
    where
      both : Run W E → Outcome ⊤ × Run W E
      both = bind Y text P local >> connect Y text P remote

      both-Keeps : (s : Run W E) → Keeps (both s) s
      both-Keeps s = after_bind (bind Y text P local s) (bind-Keeps local s)
        where
          after_bind :
              (t : Outcome ⊤ × Run W E)
              → Keeps t s
              → Keeps ((◌>>◌ (λ _. t) (connect Y text P remote)) s) s
          after_bind (ok u, t) (e, still, _) =
              let (e', still', ended) = connect-Keeps remote t in
              (e' ∙ e, λ k. still' k ∙ still k, ended)
          after_bind (thrown x, t) (e, still, ended) = (e, still, ended)
          after_bind (aborted, t) (e, still, ended) = (e, still, ended)

      conclude :
          (s : Run W E) (h : ℕ) (t : Outcome ⊤ × Run W E)
          → s.object.sock.handle ≡ some h
          → OpensNew Y w (some h) s.system
          → Keeps t s
          → Clean w (finished Y text P t)
      conclude s h (ok _, t) e (new, opened, rest) (same, still, _) = (
        h,
        ap (λ r. r.handle) same ∙ e,
        refl,
        (new, still h ∙ opened, λ k ne. still k ∙ rest k ne),
      )
      conclude s h (thrown x, t) e (new, opened, rest) (same, still, _) =
          let (gone, others) = close_own t h (ap (λ r. r.handle) same ∙ e) in
          λ k. elim (ℕ_discrete k h) [
            | yes z ↦
                ap (Y.is_open (try_close Y t).1.system) z
                ∙ gone
                ∙ sym new
                ∙ ap (Y.is_open w) (sym z)
            | no n ↦ others k n ∙ still k ∙ rest k n
          ]
      conclude s h (aborted, t) e new (_, _, ended) = ended refl

      finish :
          (r : Outcome (Run W E) × W)
          → Clean w r
          → Clean w (elim (r.0) [
            | ok s ↦ finished Y text P (both s)
            | thrown e ↦ (thrown e, r.1)
            | aborted ↦ (aborted, r.1)
          ])
      finish (ok s, v) (h, e, same, new) =
          conclude s h (both s) e (subst (λ z. OpensNew Y w (some h) z) (sym same) new)
            (both-Keeps s)
      finish (thrown e, v) c = c
      finish (aborted, v) c = c
