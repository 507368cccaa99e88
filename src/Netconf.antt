-- ===== src/Netconf.antt =====
-- cli_tool/transport/netconf.py: the NETCONF client and its confirmed-commit transaction.
-- Model holds the data and the parts with no session, Session what is taken of ncclient, Client the
-- methods that open and use a session.
pub mod Model
pub mod Session
pub mod Client
pub mod Transaction
mod Tests
