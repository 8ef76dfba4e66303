-- ===== src/Command.antt =====
-- hbm/sys/executecommand.cpp: running a command, for its output or with data on its standard input.
pub mod Execute
mod Output
mod Written
mod Tests
