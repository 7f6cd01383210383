-- ===== src/Tests.antt =====
-- Runs of the modelled code at concrete inputs, and the theorems at inputs that meet their
-- hypotheses, a module for each part.
mod WriteOpRuns
mod ApiRuns
mod OpsRuns
mod AdbRuns
mod FirewallRuns
mod DiagnoseRuns
mod SmsRuns
mod LanRuns
mod ForwardRuns
mod TrendRuns
mod SchedulerRuns
mod ApnRuns
mod ScenarioRuns
mod WifiRuns
mod EsimRuns
mod HomeRuns
mod RoutesRuns
mod UbusRuns
