-- ===== src/Life/Announced.antt =====
-- What a program that was started without the -mode flag says and runs, by its configuration.
use goxic.Config.Record.{Config}
