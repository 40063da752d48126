-- ===== src/Apply/Meaning.antt =====
-- `apply` with the fuel that a filter needs.
use josh.Base.{ℕ, suc, ◌-◌, ◌≡◌, ◌∙◌, arith}
use josh.Filter.Op.{Filter}
use josh.Filter.Height.{height, height_pos}
use josh.Tree.Object.{Obj}
use josh.Apply.Run.{Run}
use josh.Apply.Eval.{Env, apply, apply_op}
use josh.Apply.Fuel.{op_cong, apply_fuel}

unfoldable pub run : Env → Filter → Obj → Run Obj
unfolding apply height
run env f t = apply env (height f) f t

-- `apply_impl` as the code writes it: one level, over itself.
pub run-eq : (env : Env) (f : Filter) (t : Obj) → run env f t ≡ apply_op env (run env) f t
unfolding run apply
run-eq env f t =
    let k : ℕ = height f - 1 in
    apply_fuel env (height f) (suc k) f t (omega arith) (omega (arith, height_pos f))
    ∙ op_cong env {k = k} (λ g u below. apply_fuel env k (height g) g u below (omega arith)) f t
        (omega (arith, height_pos f))
