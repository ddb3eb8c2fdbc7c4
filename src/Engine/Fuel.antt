-- ===== src/Engine/Fuel.antt =====
-- The depth limit bounds the recursion: more fuel than levels changes nothing.
use luaml.Prelude.{ℕ, zero, suc, ◌+◌, ◌≤◌, ◌<◌, ◌≡◌, fun_ext, arith, leb, Bool-cases, inl, inr}
use luaml.Types.{Float, FieldMap}
use luaml.Engine.Api.{Vm}
use luaml.Engine.State.{CascadeConfig}
use luaml.Engine.Cascade.{CascadeState, dispatch_inner}

fuel_step :
    {L H F : Type 0} ⦃fl : Float F⦄ (vm : Vm L H F) (config : CascadeConfig) (f g depth : ℕ)
    → depth ≤ config.max_depth
    → config.max_depth < depth + f
    → config.max_depth < depth + g
    → (event : FieldMap F) (st : CascadeState L H F)
    → dispatch_inner vm config f depth event st ≡ dispatch_inner vm config g depth event st
unfolding dispatch_inner
fuel_step vm config zero g depth h p q event st = absurd (omega arith)
fuel_step vm config (suc f) zero depth h p q event st = absurd (omega arith)
fuel_step vm config (suc f) (suc g) depth h p q event st =
    elim (Bool-cases (leb config.max_depth depth)) [
      | inl deep ↦ rw deep
      | inr shallow ↦
          let deeper = fun_ext (λ e.
            fun_ext
              (fuel_step vm config f g (depth + 1) (ground arith) (omega arith) (omega arith) e)) in
          rw deeper
    ]

-- From a depth within the limit, any two amounts of fuel above the levels that are left give the
-- same run.
pub dispatch_inner-fuel :
    {L H F : Type 0} ⦃fl : Float F⦄ (vm : Vm L H F) (config : CascadeConfig) (f g depth : ℕ)
    (event : FieldMap F) (st : CascadeState L H F)
    → depth ≤ config.max_depth
    → config.max_depth < depth + f
    → f ≤ g
    → dispatch_inner vm config f depth event st ≡ dispatch_inner vm config g depth event st
dispatch_inner-fuel vm config f g depth event st h p q =
    fuel_step vm config f g depth h p (omega arith) event st
