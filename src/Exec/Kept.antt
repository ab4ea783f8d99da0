-- ===== src/Exec/Kept.antt =====
-- What every command of src/exec.c keeps, errors included: the buffer stays valid, and an error
-- changes no line.
use ed.Common.{◌≤◌, Bool, List, arith, ltb, ◌==◌, ◌&&◌, if◌then◌else◌, subst}
use ed.Common.Int.{ℤ, pos, negsuc, pos_part}
use ed.Line.{Ptr}
use ed.Address
use ed.Address.{Parse, char, advance}
use ed.Address.Range.{Region, address_range, next_address}
use ed.Address.Bounds.{InBuffer}
use ed.Address.Current.{Stays, address_range-Stays, next_address-Stays}
use ed.Edit.Valid.{IsBuffer}
use ed.Exec.Commands.{invalid_cmd}
use ed.Exec.{
  of_address, destination_required, out_of_range, invalid_address, unknown_command, Extent, Editor,
  CmdStatus, ok, err, out_of_fuel, ◌>>=◌, dot, destination_address, address_env, at_parse,
}

-- Where the code returns, the editor that it leaves has the property.
abbrev pub Always : {A : Type 0} → CmdStatus A → (Editor → Type 0) → Type 0
Always (ok a e) P = P e
Always (err m e) P = P e
Always out_of_fuel P = Unit

-- The code returns: `P` holds of the result, or `Q` of what an error leaves.
abbrev pub Post : {A : Type 0} → CmdStatus A → (A → Editor → Type 0) → (Editor → Type 0) → Type 0
Post (ok a e) P Q = P a e
Post (err m e) P Q = Q e
Post out_of_fuel P Q = ⊥

pub bind_post :
    {A B : Type 0} (P : A → Editor → Type 0) (R : B → Editor → Type 0) (Q : Editor → Type 0)
    (r : CmdStatus A) (k : A → Editor → CmdStatus B)
    → Post r P Q
    → ((a : A) (e : Editor) → P a e → Post (k a e) R Q)
    → Post (r >>= k) R Q
bind_post P R Q (ok a e) k h f = f a e h
bind_post P R Q (err m e) k h f = h
bind_post P R Q out_of_fuel k h f = absurd h

-- A step of a command that leaves the lines.
abbrev pub Lines : {A : Type 0} → CmdStatus A → List Ptr → Type 0
Lines r xs = Always r (λ e. IsBuffer e.buffer xs)

module _ (xs : List Ptr) where
  pub bind-Lines :
      {A B : Type 0} (r : CmdStatus A) (k : A → Editor → CmdStatus B)
      → Lines r xs
      → ((a : A) (e : Editor) → IsBuffer e.buffer xs → Lines (k a e) xs)
      → Lines (r >>= k) xs
  bind-Lines (ok a e) k h f = f a e h
  bind-Lines (err m e) k h f = h
  bind-Lines out_of_fuel k h f = tt

  at_parse-IsBuffer :
      (e : Editor) (p : Parse)
      → IsBuffer e.buffer xs
      → InBuffer (address_env e) p.dot
      → IsBuffer (at_parse e p).buffer xs
  at_parse-IsBuffer e p v d = record {
    ring = v.ring;
    lines = v.lines;
    dot = subst (λ n. pos_part p.dot ≤ n) v.lines (in_range p.dot d);
    cached = v.cached;
    not_null = v.not_null;
  }
    where
      in_range : (a : ℤ) → InBuffer (address_env e) a → pos_part a ≤ e.buffer.state.lines
      in_range (pos n) d = d
      in_range (negsuc n) d = absurd d

  pub destination_address-Lines :
      (e : Editor) → IsBuffer e.buffer xs → Lines (destination_address e) xs
  unfolding destination_address
  destination_address-Lines e v =
      finish (address_range (address_env e) p) (address_range-Stays (address_env e) p d)
    where
      p : Parse
      p = record { input = e.input; dot = pos (dot e) }

      d : dot e ≤ e.buffer.state.lines
      d = omega (arith, v.dot, v.lines)

      finish :
          (r : Address.Result Region)
          → Stays (address_env e) r
          → Lines
              (elim r [
                | Address.out_of_fuel ↦ out_of_fuel
                | Address.err m p ↦ err (of_address m) (at_parse e p)
                | Address.ok r p ↦
                    let addr = pos_part r.end in
                    let given : Extent = record {
                      start = pos_part r.start;
                      end = addr;
                      addrs = r.addrs;
                    } in
                    let e₁ = record (at_parse e p) { region = given } in
                    if e.options.traditional && (r.addrs == 0)
                    then err destination_required e₁
                    else if ltb e.buffer.state.lines addr
                    then err out_of_range e₁
                    else ok addr (record e₁ {
                      region = record {
                        start = e.region.start;
                        end = e.region.end;
                        addrs = r.addrs;
                      };
                    })
              ])
              xs
      finish Address.out_of_fuel h = tt
      finish (Address.err m q) h = at_parse-IsBuffer e q v h
      finish (Address.ok r q) h = ground (arith, at_parse-IsBuffer e q v h)

  pub invalid_cmd-Lines :
      (A : Type 0) (e : Editor) → IsBuffer e.buffer xs → Lines {A = A} (invalid_cmd e) xs
  unfolding invalid_cmd
  invalid_cmd-Lines A e v =
      finish (next_address (address_env e) (pos (dot e)) p)
        (next_address-Stays (address_env e) (pos (dot e)) p (omega (arith, v.dot, v.lines)))
    where
      p : Parse
      p = record { input = e.input; dot = pos (dot e) }

      finish :
          (r : Address.Result (ℤ × Bool))
          → Stays (address_env e) r
          → Lines {A = A}
              (elim r [
                | Address.out_of_fuel ↦ out_of_fuel
                | Address.err m q ↦ err unknown_command (at_parse e q)
                | Address.ok a q ↦
                    err (if a.1 then invalid_address else unknown_command) (at_parse e q)
              ])
              xs
      finish Address.out_of_fuel h = tt
      finish (Address.err m q) h = at_parse-IsBuffer e q v h
      finish (Address.ok a q) h = at_parse-IsBuffer e q v h
