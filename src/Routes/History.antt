-- ===== src/Routes/History.antt =====
-- The tables that the operations reach.
use nostmesh.Base.{ℕ, List, [], ◌∷◌, ℤ}
use nostmesh.Net.{Prefix}
use nostmesh.Routes.Table.{Route, RouteTable, new_table, offer, withdraw, withdraw_provider, expire}
use nostmesh.Routes.Select.{select}
use nostmesh.Routes.WellFormed.{
  WellFormed, new_table-WellFormed, offer-WellFormed, withdraw-WellFormed,
  withdraw_provider-WellFormed, expire-WellFormed, select-WellFormed,
}

-- The calls that change a table.
pub data Operation : Type 0 where
  offering : Route → Operation
  withdrawing : Prefix → ℕ → Operation
  leaving : ℕ → Operation
  expiring : ℕ → Operation
  selecting : ℕ → Operation

unfoldable pub perform_operation : Operation → RouteTable → RouteTable
perform_operation (offering r) t = (offer r t).1
perform_operation (withdrawing prefix provider) t = withdraw prefix provider t
perform_operation (leaving provider) t = withdraw_provider provider t
perform_operation (expiring now) t = (expire now t).1
perform_operation (selecting now) t = (select now t).1

unfoldable pub table_after : List Operation → RouteTable → RouteTable
table_after [] t = t
table_after (o ∷ os) t = table_after os (perform_operation o t)

operation-WellFormed :
    (o : Operation) (t : RouteTable) → WellFormed t → WellFormed (perform_operation o t)
unfolding perform_operation
operation-WellFormed (offering r) t v = offer-WellFormed r t v
operation-WellFormed (withdrawing p q) t v = withdraw-WellFormed p q t v
operation-WellFormed (leaving q) t v = withdraw_provider-WellFormed q t v
operation-WellFormed (expiring now) t v = expire-WellFormed now t v
operation-WellFormed (selecting now) t v = select-WellFormed now t v

table_after-keeps :
    (os : List Operation) (t : RouteTable) → WellFormed t → WellFormed (table_after os t)
unfolding table_after
table_after-keeps [] t v = v
table_after-keeps (o ∷ os) t v =
    table_after-keeps os (perform_operation o t) (operation-WellFormed o t v)

-- Whatever operations a new table has seen, it keeps each offer under the destination and the
-- provider that the offer names, and each destination once.
pub table_after-WellFormed :
    (hysteresis : ℤ) (os : List Operation) → WellFormed (table_after os (new_table hysteresis))
table_after-WellFormed hysteresis os =
    table_after-keeps os (new_table hysteresis) (new_table-WellFormed hysteresis)
