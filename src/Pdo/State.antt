-- ===== src/Pdo/State.antt =====
-- `CySetPnPState` and `CyRestorePnPState` of fossil/cyclades/inc/cycommon.h.
use netmodem2irc.Port.{Port, PnpState}

-- `CySetPnPState`, on a port
unfoldable pub set_pnp_state : PnpState → Port → Port
set_pnp_state s p = record p { previous_pnp_state = p.pnp_state; pnp_state = s }

-- `CyRestorePnPState`, on a port
unfoldable pub restore_pnp_state : Port → Port
restore_pnp_state p = record p { pnp_state = p.previous_pnp_state }
