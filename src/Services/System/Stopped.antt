-- ===== src/Services/System/Stopped.antt =====
-- A run that is stopped stays stopped in every world that the system reaches, and no engine is
-- asked to launch it.
use flotilla_os.Services.System.Settled.{Settled}
use flotilla_os.World.{World}
