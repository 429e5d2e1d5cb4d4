-- ===== src/Serial/Session.antt =====
-- The set-up and the shutdown of a channel keep to that channel.
use netmodem2irc.Base.{arith}
use netmodem2irc.Cd1400
use netmodem2irc.Bus.{Device, Log, read_reg, write_reg, select_channel}
use netmodem2irc.Bus.Session.{Session, selected, reads, writes}
use netmodem2irc.Port.{Port}
use netmodem2irc.Serial.Channel.{init_channel, shutdown_channel}

module _ (dev : Device) (p : Port) (log : Log) where
  pub init_channel-Session : Session dev p.chip_base p.channel log (init_channel dev p log).1
  unfolding init_channel read_reg write_reg select_channel
  init_channel-Session = reads Cd1400.msvr2 _ (omega arith) (
      reads Cd1400.msvr1 _ (omega arith) (
        writes Cd1400.srer _ (omega arith) (
          writes Cd1400.msvr2 _ (omega arith) (
            writes Cd1400.msvr1 _ (omega arith) (
              writes Cd1400.ccr _ (omega arith) (
                writes Cd1400.ccr _ (omega arith) (
                  writes Cd1400.cor3 _ (omega arith) (
                    writes Cd1400.cor2 _ (omega arith) (
                      writes Cd1400.cor1 _ (omega arith)
                        (writes Cd1400.ccr _ (omega arith) (selected _ (omega arith))))))))))))

  pub shutdown_channel-Session :
      Session dev p.chip_base p.channel log (shutdown_channel dev p log).1
  unfolding shutdown_channel write_reg select_channel
  shutdown_channel-Session = writes Cd1400.msvr2 _ (omega arith) (
      writes Cd1400.msvr1 _ (omega arith) (
        writes Cd1400.ccr _ (omega arith)
          (writes Cd1400.srer _ (omega arith) (selected _ (omega arith)))))
