-- ===== src/Proxy/Expiry.antt =====
-- The jobs that end orders, services/proxy-service/internal/usecase/expiry_usecase.go.
pub mod Sweep
use cloudmini_reseller.Common.{List, [], ◌∷◌}
use cloudmini_reseller.Common.Int.{ℤ, pos, is_zero}
use cloudmini_reseller.Common.{if◌then◌else◌}
use cloudmini_reseller.Common.Action.{Outcome, ok, err, pure, ◌>>=◌, ◌>>◌}
use cloudmini_reseller.Proxy.Entity.{
  OrderStatus, expired, cancelled, Order, EventType, order_expired, order_deleted,
}
use cloudmini_reseller.Proxy.World.{Env, World, Action, VendorCall, cancel, suspend, log_event}
use cloudmini_reseller.Proxy.Repo.{update_status, list_expired_active, list_expired_grace}
use cloudmini_reseller.Proxy.Lifecycle.{tell_provider}
use cloudmini_reseller.Common.{ℕ, String}

-- DefaultGracePeriod, which NewExpiryUsecase puts in place of zero.
abbrev pub default_grace_period : ℤ
default_grace_period = pos 259200

abbrev pub new_grace_period : ℤ → ℤ
new_grace_period t = if is_zero t then default_grace_period else t

-- One turn of the loop; an error of the UPDATE ends only this turn.
abbrev pub end_order :
    (ℕ → String → VendorCall) → OrderStatus → EventType → Order → Action (Unit {0})
end_order kind s event o = do tell_provider kind o; update_status o.id s; log_event o.id event

unfoldable pub expire_all : List Order → Env → World → World
expire_all [] env w = w
expire_all (o ∷ os) env w = expire_all os env (end_order suspend expired order_expired o env w).1

unfoldable pub delete_all : List Order → Env → World → World
delete_all [] env w = w
delete_all (o ∷ os) env w = delete_all os env (end_order cancel cancelled order_deleted o env w).1

unfoldable pub process_expired : Action (Unit {0})
unfolding expire_all
process_expired = do os ← list_expired_active; λ env w. (ok tt, expire_all os env w)

unfoldable pub process_grace_expired : ℤ → Action (Unit {0})
unfolding delete_all
process_grace_expired grace = do
  os ← list_expired_grace grace
  λ env w. (ok tt, delete_all os env w)
